-- ===== src/Auth/Passwords.antt =====
-- handleChangePassword and handleResetUserPassword of internal/auth/service.go. A password is counted
-- in bytes.
pub mod Reset
use archivon.Prelude.{
  ℕ, Bool, true, false, not, ◌&&◌, Option, none, some, List, [], ◌∷◌, ◌++◌, Result, ok, err, ltb,
  ◌==◌, if◌then◌else◌, find?, length,
}
use archivon.Text.Trim.{Text, is_empty}
use archivon.Store.{
  Db, UserRow, password_changed, password_change_failed, password_reset, info, warning, AuditRow,
}
use archivon.Store.Table.{update_where}
use archivon.Store.Tx.{
  Tx, Outcome, ◌>>=◌, ◌>>◌, pure, modify, insert_audit, transaction, then_read, access_error,
  Failure,
}
use archivon.Auth.Env.{AuthEnv}
use archivon.Auth.Roles.{can_manage_user}
use archivon.Auth.Users.{current_user, user_by_id, revoke_user_sessions, may_act}
use archivon.Auth.Login.{audited, user_audit}

abbrev pub min_password_length : ℕ
min_password_length = 10

abbrev pub nonempty : Option Text → Option Text
nonempty none = none
nonempty (some hash) = if is_empty hash then none else some hash

-- passwordHashForUser
unfoldable pub password_hash_for_user : ℕ → Db → Option Text
password_hash_for_user id d = elim (find? (may_act id) d.users) [
  | none ↦ none
  | some u ↦ nonempty u.password_hash
]

-- UPDATE users SET password_hash, must_change_password
unfoldable pub set_password : (hash : Text) (must_change : Bool) (user : ℕ) → Db → Db
unfolding update_where
set_password hash must user d = record d {
  users =
      update_where (λ (u : UserRow). u.id == user)
        (λ (u : UserRow). record u { password_hash = some hash; must_change_password = must })
        d.users;
}

unfoldable pub change_password_tx : UserRow → (hash ip : Text) → Tx (Unit {0})
unfolding set_password
change_password_tx u hash ip =
    modify (set_password hash false u.id) >> insert_audit (user_audit u password_changed info ip)

-- What a request to change a password sends: the current and the new one.
abbrev pub Change : Type 0
Change = Text × Text

-- After the current password was right.
unfoldable pub store_password : AuthEnv → UserRow → (new ip : Text) → Db → Outcome UserRow
unfolding change_password_tx transaction user_by_id
store_password env u new ip d = elim (env.bcrypt new) [
  | err e ↦ (err (access_error 500 "password_hash_failed"), d)
  | ok hash ↦ then_read (transaction (change_password_tx u hash ip) d) (user_by_id u.id)
]

abbrev pub check_password : AuthEnv → UserRow → Change → (ip : Text) → Db → Text → Outcome UserRow
check_password env u (current, new) ip d hash =
    if env.password_matches hash current then store_password env u new ip d else (
      err (access_error 403 "invalid_current_password"),
      audited (user_audit u password_change_failed warning ip) d,
    )

abbrev pub change_for : AuthEnv → UserRow → Change → (ip : Text) → Db → Outcome UserRow
change_for env u (current, new) ip d =
    if is_empty current
    then (err (access_error 400 "current_password_required"), d)
    else if ltb (length new) min_password_length
    then (err (access_error 400 "password_too_short"), d)
    else elim (password_hash_for_user u.id d) [
      | none ↦ (err (access_error 500 "password_check_failed"), d)
      | some hash ↦ check_password env u (current, new) ip d hash
    ]

-- handleChangePassword; `none` is a body that does not decode
unfoldable pub change_password :
    AuthEnv → (token : Text) → Option Change → (ip : Text) (now : ℕ) → Db → Outcome UserRow
unfolding current_user password_hash_for_user store_password
change_password env token change ip now d = elim (current_user token now d) [
  | none ↦ (err (access_error 401 "not_authenticated"), d)
  | some u ↦ elim change [
    | none ↦ (err (access_error 400 "invalid_json"), d)
    | some c ↦ change_for env u c ip d
  ]
]

abbrev pub actor_audit : (actor target : UserRow) → (ip : Text) → AuditRow
actor_audit actor target ip = record {
  tenant = target.tenant;
  actor = some actor.id;
  event = password_reset;
  target = some target.id;
  severity = warning;
  ip_address = ip;
}

unfoldable pub reset_password_tx :
    (actor target : UserRow) → (hash ip : Text) (now : ℕ) → Tx (Unit {0})
unfolding set_password revoke_user_sessions
reset_password_tx actor target hash ip now =
    modify (set_password hash true target.id)
    >> (modify (revoke_user_sessions target.id now) >> insert_audit (actor_audit actor target ip))

-- The user and the temporary password that the reply carries.
abbrev pub with_password : Text → Outcome UserRow → Outcome (UserRow × Text)
with_password temporary (ok u, d) = (ok (u, temporary), d)
with_password temporary (err e, d) = (err e, d)

abbrev pub reset_for :
    AuthEnv → (actor target : UserRow) → (ip : Text) (now : ℕ) → Db → Outcome (UserRow × Text)
reset_for env actor target ip now d = elim env.temporary_password [
  | err e ↦ (err (access_error 500 "temporary_password_failed"), d)
  | ok temporary ↦ elim (env.bcrypt temporary) [
    | err e ↦ (err (access_error 500 "password_hash_failed"), d)
    | ok hash ↦ with_password temporary (
        then_read (transaction (reset_password_tx actor target hash ip now) d)
          (user_by_id target.id))
  ]
]

-- handleResetUserPassword
unfoldable pub reset_password :
    AuthEnv → (token : Text) (target : ℕ) (ip : Text) (now : ℕ) → Db → Outcome (UserRow × Text)
unfolding current_user user_by_id can_manage_user reset_password_tx transaction
reset_password env token target ip now d = elim (current_user token now d) [
  | none ↦ (err (access_error 401 "not_authenticated"), d)
  | some actor ↦ elim (user_by_id target d) [
    | none ↦ (err (access_error 404 "user_not_found"), d)
    | some t ↦
        (if can_manage_user actor t
          then reset_for env actor t ip now d
          else (err (access_error 403 "target_not_allowed"), d))
  ]
]
