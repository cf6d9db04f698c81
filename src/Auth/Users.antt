-- ===== src/Auth/Users.antt =====
-- CurrentUser, RequireRole and handleUpdateUserStatus of internal/auth/service.go. The hash of the
-- session cookie, the decoded body, the clock and the client's address are arguments.
pub mod Blocking
use archivon.Prelude.{
  ℕ, Bool, true, false, not, ◌&&◌, Option, none, some, List, [], ltb, ◌==◌, if◌then◌else◌, any,
  find?, Result, ok, err,
}
use archivon.Text.Trim.{Text, text_eq}
use archivon.Store.{
  Db, UserRow, UserSession, AuthStatus, Role, AuditRow, user_blocked, user_unblocked, info, warning,
}
use archivon.Store.Table.{update_where}
use archivon.Store.Tx.{
  Tx, Outcome, ◌>>=◌, ◌>>◌, modify, insert_audit, transaction, then_read, access_error,
}
use archivon.Auth.Roles.{can_manage_user}

abbrev pub is_active : AuthStatus → Bool
is_active AuthStatus.active = true
is_active _ = false

abbrev pub opens : Text → ℕ → UserSession → Bool
opens token now s = text_eq s.token_hash token && (is_active s.status && ltb now s.expires_at)

-- u.id = s.user_id AND u.is_blocked = false
abbrev pub may_act : ℕ → UserRow → Bool
may_act id u = u.id == id && not u.is_blocked

-- userBySessionHash; token_hash is unique
unfoldable pub current_user : (token : Text) (now : ℕ) → Db → Option UserRow
unfolding text_eq
current_user token now d = elim (find? (opens token now) d.user_sessions) [
  | none ↦ none
  | some s ↦ find? (may_act s.user) d.users
]

abbrev pub same_role : Role → Role → Bool
same_role Role.super_admin Role.super_admin = true
same_role Role.admin Role.admin = true
same_role Role.client Role.client = true
same_role _ _ = false

-- RequireRole: the user that the next handler serves, or the status and the error
unfoldable pub require_role :
    List Role → (token : Text) (now : ℕ) → Db → Result (ℕ × Prim.Native.String.String) UserRow
unfolding current_user
require_role roles token now d = elim (current_user token now d) [
  | none ↦ err (401, "not_authenticated")
  | some u ↦
      (if not (any (same_role u.role) roles)
        then err (403, "forbidden")
        else if u.must_change_password
        then err (403, "password_change_required")
        else ok u)
]

unfoldable pub user_by_id : ℕ → Db → Option UserRow
user_by_id id d = find? (λ (u : UserRow). u.id == id) d.users

abbrev pub active_of : ℕ → UserSession → Bool
active_of user s = s.user == user && is_active s.status

unfoldable pub revoke_user_sessions : (user now : ℕ) → Db → Db
unfolding update_where
revoke_user_sessions user now d = record d {
  user_sessions =
      update_where (active_of user)
        (λ (s : UserSession). record s { status = AuthStatus.revoked; revoked_at = some now })
        d.user_sessions;
}

unfoldable pub set_blocked : Bool → (user : ℕ) → Db → Db
unfolding update_where
set_blocked blocked user d = record d {
  users =
      update_where (λ (u : UserRow). u.id == user)
        (λ (u : UserRow). record u { is_blocked = blocked }) d.users;
}

abbrev pub status_audit : (actor target : UserRow) → Bool → (ip : Text) → AuditRow
status_audit actor target blocked ip = record {
  tenant = target.tenant;
  actor = some actor.id;
  event = if blocked then user_blocked else user_unblocked;
  target = some target.id;
  severity = if blocked then warning else info;
  ip_address = ip;
}

unfoldable pub update_status_tx :
    (actor target : UserRow) → Bool → (ip : Text) (now : ℕ) → Tx (Unit {0})
unfolding set_blocked revoke_user_sessions
update_status_tx actor target blocked ip now =
    modify (set_blocked blocked target.id)
    >> (modify (λ d. if blocked then revoke_user_sessions target.id now d else d)
        >> insert_audit (status_audit actor target blocked ip))

abbrev pub update_status_of :
    (actor target : UserRow) → Bool → (ip : Text) (now : ℕ) → Db → Outcome UserRow
update_status_of actor target blocked ip now d =
    if can_manage_user actor target
    then then_read (transaction (update_status_tx actor target blocked ip now) d)
        (user_by_id target.id)
    else (err (access_error 403 "target_not_allowed"), d)

-- handleUpdateUserStatus; `none` is a body that does not decode
unfoldable pub update_user_status :
    (token : Text) (blocked : Option Bool) (target : ℕ) (ip : Text) (now : ℕ) → Db → Outcome UserRow
unfolding current_user user_by_id can_manage_user update_status_tx transaction
update_user_status token blocked target ip now d = elim (current_user token now d) [
  | none ↦ (err (access_error 401 "not_authenticated"), d)
  | some actor ↦ elim blocked [
    | none ↦ (err (access_error 400 "invalid_json"), d)
    | some b ↦ elim (user_by_id target d) [
      | none ↦ (err (access_error 404 "user_not_found"), d)
      | some t ↦ update_status_of actor t b ip now d
    ]
  ]
]
