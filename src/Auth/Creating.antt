-- ===== src/Auth/Creating.antt =====
-- handleCreateSuperAdmin, handleCreateUser and BootstrapState of internal/auth/service.go, with
-- insertUserTx. The advisory lock makes two bootstraps follow one another.
pub mod Supremacy
pub mod Rank
use archivon.Prelude.{
  ℕ, Bool, true, false, not, ◌&&◌, ◌||◌, Option, none, some, List, [], ◌∷◌, ◌++◌, Result, ok, err,
  ltb, ◌==◌, if◌then◌else◌, any, count, length, String,
}
use archivon.Text.Trim.{Text, text_eq, trim_space, to_lower, is_empty}
use archivon.Store.{
  Db, UserRow, Role, super_admin, AuditRow, super_admin_created, user_created, info,
}
use archivon.Store.Tx.{
  Tx, Outcome, ◌>>=◌, ◌>>◌, pure, gets, require, or_fail, insert_audit, transaction, access_error,
  Failure, unique_violation,
}
use archivon.Auth.Env.{AuthEnv}
use archivon.Auth.Roles.{can_create_role, is_super_admin}
use archivon.Auth.Users.{current_user}
use archivon.Auth.Passwords.{min_password_length}

-- nullableString
abbrev pub nullable_string : Text → Option Text
nullable_string s = if is_empty (trim_space s) then none else some (trim_space s)

-- The row of an insert into users.
abbrev pub new_user : (id tenant : ℕ) → Role → (username hash : Text) → Bool → Option Text → UserRow
new_user id tenant role username hash must description = record {
  id = id;
  tenant = tenant;
  role = role;
  username = username;
  lower_username = to_lower username;
  password_hash = some hash;
  must_change_password = must;
  is_blocked = false;
  description = description;
  last_login_at = none;
}

-- The unique indexes: the lower-case name, and one super admin of a tenant.
abbrev pub conflicts : UserRow → UserRow → Bool
conflicts new u =
    u.tenant == new.tenant
    && (text_eq u.lower_username new.lower_username
        || (is_super_admin u.role && is_super_admin new.role))

unfoldable pub insert_user : UserRow → Tx UserRow
unfolding text_eq
insert_user new d =
    if any (conflicts new) d.users
    then err unique_violation
    else ok (new, record d { users = d.users ++ (new ∷ []) })

-- SELECT count(*) FROM users WHERE tenant_id = $1 AND role = 'super_admin'
abbrev pub super_admin_of : ℕ → UserRow → Bool
super_admin_of tenant u = u.tenant == tenant && is_super_admin u.role

unfoldable pub super_admin_count : ℕ → Db → ℕ
super_admin_count tenant d = count (super_admin_of tenant) d.users

-- BootstrapState: "error", "required" or "complete"
unfoldable pub bootstrap_state : AuthEnv → Db → String
unfolding super_admin_count
bootstrap_state env d = elim env.default_tenant [
  | none ↦ "error"
  | some tenant ↦ (if super_admin_count tenant d == 0 then "required" else "complete")
]

-- An error of a statement that the handler answers with one code.
abbrev pub or_answer : {A : Type 0} → Tx A → Failure → Tx A
or_answer m e d = elim (m d) [ ok r ↦ ok r | err f ↦ err e ]

unfoldable pub create_super_admin_tx :
    (tenant : Option ℕ) (id : ℕ) (username hash : Text) → Option Text → (ip : Text) → Tx UserRow
unfolding super_admin_count insert_user
create_super_admin_tx tenant id username hash description ip = do
  t ← or_fail tenant (access_error 500 "tenant_not_found")
  n ← gets (super_admin_count t)
  require (n == 0) (access_error 409 "bootstrap_already_completed")
  u ←
      or_answer (insert_user (new_user id t super_admin username hash false description))
        (access_error 500 "super_admin_create_failed")
  insert_audit (record {
    tenant = t;
    actor = some u.id;
    event = super_admin_created;
    target = some u.id;
    severity = info;
    ip_address = ip;
  })
  pure u

abbrev pub bootstrap_of :
    AuthEnv → (id : ℕ) (username password : Text) → Option Text → (ip : Text) → Db → Outcome UserRow
bootstrap_of env id username password description ip d =
    if is_empty username
    then (err (access_error 400 "username_required"), d)
    else if ltb (length password) min_password_length
    then (err (access_error 400 "password_too_short"), d)
    else elim (env.bcrypt password) [
      | err e ↦ (err (access_error 500 "password_hash_failed"), d)
      | ok hash ↦
          transaction (create_super_admin_tx env.default_tenant id username hash description ip) d
    ]

-- handleCreateSuperAdmin of a decoded body
unfoldable pub create_super_admin :
    AuthEnv → (id : ℕ) (username password description ip : Text) → Db → Outcome UserRow
unfolding trim_space create_super_admin_tx transaction
create_super_admin env id username password description ip d =
    bootstrap_of env id (trim_space username) (trim_space password) (nullable_string description) ip
      d

-- A violated index is the caller's error.
abbrev pub name_taken : Failure → Failure
name_taken unique_violation = access_error 409 "username_already_exists"
name_taken e = access_error 500 "user_create_failed"

unfoldable pub insert_named : UserRow → Tx UserRow
unfolding insert_user
insert_named new d = elim (insert_user new d) [ ok r ↦ ok r | err e ↦ err (name_taken e) ]

unfoldable pub create_user_tx :
    (tenant : Option ℕ) (actor : UserRow) (id : ℕ)
    → Role
    → (username hash : Text) → Option Text
    → (ip : Text) → Tx UserRow
unfolding insert_named
create_user_tx tenant actor id role username hash description ip = do
  t ← or_fail tenant (access_error 500 "tenant_not_found")
  u ← insert_named (new_user id t role username hash true description)
  insert_audit (record {
    tenant = t;
    actor = some actor.id;
    event = user_created;
    target = some u.id;
    severity = info;
    ip_address = ip;
  })
  pure u

-- What a request to create a user sends; a role that is none of the three is `other_role`.
pub record NewUser : Type 0 where
  pub username : Text
  pub role : Role
  pub description : Text

abbrev pub create_of :
    AuthEnv → (actor : UserRow) (id : ℕ) → NewUser → (ip : Text) → Db → Outcome UserRow
create_of env actor id req ip d =
    if is_empty (trim_space req.username)
    then (err (access_error 400 "username_required"), d)
    else if not (can_create_role actor.role req.role)
    then (err (access_error 403 "role_not_allowed"), d)
    else elim env.temporary_password [
      | err e ↦ (err (access_error 500 "temporary_password_failed"), d)
      | ok temporary ↦ elim (env.bcrypt temporary) [
        | err e ↦ (err (access_error 500 "password_hash_failed"), d)
        | ok hash ↦
            transaction
              (create_user_tx env.default_tenant actor id req.role (trim_space req.username) hash
                (nullable_string req.description) ip)
              d
      ]
    ]

-- handleCreateUser; `none` is a body that does not decode. The reply carries the drawn password too.
unfoldable pub create_user :
    AuthEnv
    → (token : Text) (id : ℕ) → Option NewUser
    → (ip : Text) (now : ℕ) → Db
    → Outcome UserRow
unfolding current_user can_create_role create_user_tx transaction trim_space
create_user env token id req ip now d = elim (current_user token now d) [
  | none ↦ (err (access_error 401 "not_authenticated"), d)
  | some actor ↦ elim req [
    | none ↦ (err (access_error 400 "invalid_json"), d)
    | some r ↦ create_of env actor id r ip d
  ]
]
