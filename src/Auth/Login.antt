-- ===== src/Auth/Login.antt =====
-- handleLogin and handleLogout of internal/auth/service.go, with findLoginUser. One request is one
-- step: its reads and its transaction see the same tables.
pub mod Single
pub mod Ending
use archivon.Prelude.{
  ℕ, ◌+◌, Bool, true, false, not, ◌&&◌, ◌||◌, Option, none, some, List, [], ◌∷◌, ◌++◌, Result, ok,
  err, ltb, leb, ◌==◌, if◌then◌else◌, any, find?, count,
}
use archivon.Text.Trim.{Text, text_eq, trim_space, to_lower, is_empty}
use archivon.Store.{
  Db, UserRow, UserSession, AuthStatus, AuditRow, AuditEvent, Severity, login_failed_credentials,
  login_failed_blocked, previous_session_revoked, login_succeeded, logged_out, info, warning, hours,
}
use archivon.Store.Table.{update_where}
use archivon.Store.Tx.{
  Tx, Outcome, ◌>>=◌, ◌>>◌, pure, gets, modify, require, insert_audit, transaction, access_error,
  Failure,
}
use archivon.Auth.Env.{AuthEnv, current_auth_session_ttl}
use archivon.Auth.Roles.{is_client}
use archivon.Auth.Users.{is_active, current_user}

abbrev pub by_login : ℕ → Text → UserRow → Bool
by_login tenant lower u = u.tenant == tenant && text_eq u.lower_username lower

abbrev pub with_hash : UserRow → Option Text → Option (UserRow × Text)
with_hash u none = none
with_hash u (some hash) = if is_empty hash then none else some (u, hash)

-- findLoginUser; an account with no password hash is an error
unfoldable pub find_login_user : AuthEnv → (username : Text) → Db → Option (UserRow × Text)
unfolding text_eq trim_space to_lower
find_login_user env username d = elim env.default_tenant [
  | none ↦ none
  | some tenant ↦ elim (find? (by_login tenant (to_lower (trim_space username))) d.users) [
    | none ↦ none
    | some u ↦ with_hash u u.password_hash
  ]
]

-- insertAuditEvent outside a transaction; its error is ignored
abbrev pub audited : AuditRow → Db → Db
audited row d = record d { audit = d.audit ++ (row ∷ []) }

abbrev pub user_audit : UserRow → AuditEvent → Severity → (ip : Text) → AuditRow
user_audit u event severity ip = record {
  tenant = u.tenant;
  actor = some u.id;
  event = event;
  target = some u.id;
  severity = severity;
  ip_address = ip;
}

-- The failure of a login with no account.
abbrev pub audit_unknown : AuthEnv → (ip : Text) → Db → Db
audit_unknown env ip d = elim env.default_tenant [
  | none ↦ d
  | some tenant ↦
      audited
        (record {
          tenant = tenant;
          actor = none;
          event = login_failed_credentials;
          target = none;
          severity = warning;
          ip_address = ip;
        })
        d
]

-- tenant_id = $1 AND user_id = $2 AND status = 'active'
abbrev pub held_by : UserRow → UserSession → Bool
held_by u s = s.tenant == u.tenant && (s.user == u.id && is_active s.status)

-- ... AND expires_at <= now()
abbrev pub run_out : UserRow → ℕ → UserSession → Bool
run_out u now s = held_by u s && leb s.expires_at now

-- ... AND expires_at > now()
abbrev pub in_use : UserRow → ℕ → UserSession → Bool
in_use u now s = held_by u s && ltb now s.expires_at

unfoldable pub expire_logins : UserRow → ℕ → List UserSession → List UserSession
unfolding update_where
expire_logins u now ss =
    update_where (run_out u now) (λ (s : UserSession). record s { status = AuthStatus.expired }) ss

unfoldable pub revoke_logins : UserRow → ℕ → List UserSession → List UserSession
unfolding update_where
revoke_logins u now ss =
    update_where (in_use u now)
      (λ (s : UserSession). record s { status = AuthStatus.revoked; revoked_at = some now }) ss

abbrev pub later_of : UserSession → Option UserSession → UserSession
later_of s none = s
later_of s (some t) = if ltb s.created_at t.created_at then t else s

-- ORDER BY created_at DESC LIMIT 1
unfoldable pub latest : (UserSession → Bool) → List UserSession → Option UserSession
latest p [] = none
latest p (s ∷ ss) = let rest = latest p ss in if p s then some (later_of s rest) else rest

-- A client's earlier sessions end.
unfoldable pub replace_logins : UserRow → (ip : Text) (now : ℕ) → Option UserSession → Tx (Unit {0})
unfolding revoke_logins
replace_logins u ip now none d = ok (tt, d)
replace_logins u ip now (some previous) d =
    if is_client u.role
    then ((modify (λ e. record e { user_sessions = revoke_logins u now e.user_sessions })
          >> insert_audit (
              user_audit u
                (previous_session_revoked (count (in_use u now) d.user_sessions) previous.id)
                warning ip))
        d)
    else ok (tt, d)

-- The rows of user_sessions_one_active_client_per_user_idx.
abbrev pub indexed : UserSession → UserSession → Bool
indexed new s =
    s.tenant == new.tenant
    && (s.user == new.user && (is_active s.status && is_client s.role_at_login))

-- The two unique indexes that an insert can run into.
abbrev pub collides : UserSession → UserSession → Bool
collides new s =
    text_eq s.token_hash new.token_hash || (is_client new.role_at_login && indexed new s)

abbrev pub new_login : UserRow → (id : ℕ) (token_hash ip : Text) (now expires : ℕ) → UserSession
new_login u id token_hash ip now expires = record {
  id = id;
  tenant = u.tenant;
  user = u.id;
  token_hash = token_hash;
  status = AuthStatus.active;
  ip_address = ip;
  created_at = now;
  expires_at = expires;
  revoked_at = none;
  role_at_login = u.role;
}

unfoldable pub insert_login : UserSession → Tx (Unit {0})
unfolding text_eq
insert_login new d =
    if any (collides new) d.user_sessions
    then err (access_error 409 "user_session_already_active")
    else ok (tt, record d { user_sessions = d.user_sessions ++ (new ∷ []) })

abbrev pub touch_login : UserRow → ℕ → Db → Db
touch_login u now d = record d {
  users =
      update_where (λ (v : UserRow). v.id == u.id)
        (λ (v : UserRow). record v { last_login_at = some now }) d.users;
}

-- existing_session_id, for a parallel session
abbrev pub parallel : UserRow → Option UserSession → Option ℕ
parallel u none = none
parallel u (some s) = if is_client u.role then none else some s.id

-- The transaction of a login whose password was right.
unfoldable pub login_tx : UserRow → UserSession → (ip : Text) (now : ℕ) → Tx (Unit {0})
unfolding expire_logins latest replace_logins insert_login update_where
login_tx u new ip now d =
    let expired = record d { user_sessions = expire_logins u now d.user_sessions } in
    let existing = latest (in_use u now) expired.user_sessions in
    (replace_logins u ip now existing
        >> (insert_login new
            >> (modify (touch_login u now)
                >> insert_audit (user_audit u (login_succeeded (parallel u existing)) info ip))))
      expired

-- The user that is logged in, the cookie and when it expires.
pub record LoginReply : Type 0 where
  pub user : UserRow
  pub token : Text
  pub expires_at : ℕ

-- After the password.
unfoldable pub open_login :
    AuthEnv → UserRow → (id : ℕ) (ip : Text) (now : ℕ) → Db → Outcome LoginReply
unfolding current_auth_session_ttl login_tx transaction
open_login env u id ip now d = elim env.new_token [
  | err e ↦ (err (access_error 500 "session_token_failed"), d)
  | ok token ↦ elim (current_auth_session_ttl env d) [
    | err e ↦ (err (access_error 500 "auth_policy_load_failed"), d)
    | ok ttl ↦
        transaction
          (login_tx u (new_login u id (env.hash_token token) ip now (now + hours ttl)) ip now
            >> pure (record { user = u; token = token; expires_at = now + hours ttl }))
          d
  ]
]

abbrev pub check_login :
    AuthEnv
    → UserRow
    → (hash password : Text) (id : ℕ) (ip : Text) (now : ℕ) → Db
    → Outcome LoginReply
check_login env u hash password id ip now d =
    if u.is_blocked
    then (
      err (access_error 403 "user_blocked"),
      audited (user_audit u login_failed_blocked warning ip) d,
    )
    else if env.password_matches hash password
    then open_login env u id ip now d
    else (
      err (access_error 401 "invalid_credentials"),
      audited (user_audit u login_failed_credentials warning ip) d,
    )

-- handleLogin of a decoded body
unfoldable pub login :
    AuthEnv → (username password : Text) (id : ℕ) (ip : Text) (now : ℕ) → Db → Outcome LoginReply
unfolding find_login_user open_login
login env username password id ip now d = elim (find_login_user env username d) [
  | none ↦ (err (access_error 401 "invalid_credentials"), audit_unknown env ip d)
  | some (u, hash) ↦ check_login env u hash password id ip now d
]

abbrev pub token_is : Text → UserSession → Bool
token_is token s = text_eq s.token_hash token && is_active s.status

-- handleLogout, of the cookie's value where the request carries one
unfoldable pub logout : AuthEnv → (cookie : Option Text) (ip : Text) (now : ℕ) → Db → Db
unfolding current_user update_where text_eq
logout env none ip now d = d
logout env (some cookie) ip now d = elim (current_user (env.hash_token cookie) now d) [
  | none ↦ d
  | some u ↦ audited (user_audit u logged_out info ip) (record d {
    user_sessions =
        update_where (token_is (env.hash_token cookie))
          (λ (s : UserSession). record s { status = AuthStatus.revoked; revoked_at = some now })
          d.user_sessions;
  })
]
