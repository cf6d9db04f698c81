-- ===== src/Auth/Settings.antt =====
-- handleAuthSettings of internal/auth/service.go, of a decoded body.
use archivon.Prelude.{ℕ, not, Option, none, some, Result, ok, err, if◌then◌else◌, ℤ, pos_part}
use archivon.Text.Trim.{Text}
use archivon.Store.{Db, UserRow, auth_session_policy, session_policy_updated, warning, put_setting}
use archivon.Store.Tx.{Failure, Outcome, access_error}
use archivon.Auth.Env.{
  AuthEnv, AuthPolicy, is_allowed_auth_session_ttl, normalize_auth_session_policy,
  load_auth_session_policy,
}
use archivon.Auth.Users.{current_user}
use archivon.Auth.Roles.{is_super_admin}
use archivon.Auth.Login.{audited}

module _ (env : AuthEnv) where
  -- GET
  unfoldable pub handle_auth_settings_get :
      (token : Text) (now : ℕ) → Db → Result Failure AuthPolicy
  unfolding current_user load_auth_session_policy
  handle_auth_settings_get token now d = elim (current_user token now d) [
    | none ↦ err (access_error 401 "not_authenticated")
    | some user ↦ elim (load_auth_session_policy env d) [
      | err e ↦ err (access_error 500 "auth_policy_load_failed")
      | ok policy ↦ ok policy
    ]
  ]

  -- The upsert of the setting, and the event.
  abbrev pub store_auth_policy : UserRow → AuthPolicy → (raw ip : Text) → Db → Db
  store_auth_policy user policy raw ip d =
      audited
        (record {
          tenant = user.tenant;
          actor = some user.id;
          event = session_policy_updated (pos_part policy.auth_ttl_hours);
          target = none;
          severity = warning;
          ip_address = ip;
        })
        (put_setting auth_session_policy raw d)

  unfoldable pub update_auth_policy : UserRow → (hours : ℤ) (ip : Text) → Db → Outcome AuthPolicy
  unfolding load_auth_session_policy is_allowed_auth_session_ttl normalize_auth_session_policy
  update_auth_policy user hours ip d = elim (load_auth_session_policy env d) [
    | err e ↦ (err (access_error 500 "auth_policy_load_failed"), d)
    | ok loaded ↦
        (if not (is_allowed_auth_session_ttl hours)
          then (err (access_error 400 "auth_ttl_invalid"), d)
          else (let policy =
                normalize_auth_session_policy env (record loaded { auth_ttl_hours = hours }) in
              elim (env.marshal_policy policy) [
                | err e ↦ (err (access_error 500 "auth_policy_encode_failed"), d)
                | ok raw ↦ (ok policy, store_auth_policy user policy raw ip d)
              ]))
  ]

  -- POST
  unfoldable pub handle_auth_settings_post :
      (token : Text) (hours : Option ℤ) (ip : Text) (now : ℕ) → Db → Outcome AuthPolicy
  unfolding current_user update_auth_policy
  handle_auth_settings_post token hours ip now d = elim (current_user token now d) [
    | none ↦ (err (access_error 401 "not_authenticated"), d)
    | some user ↦
        (if not (is_super_admin user.role)
          then (err (access_error 403 "super_admin_required"), d)
          else elim hours [
            | none ↦ (err (access_error 400 "invalid_json"), d)
            | some h ↦ update_auth_policy user h ip d
          ])
  ]
