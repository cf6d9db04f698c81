-- ===== src/Auth/Env.antt =====
-- What internal/auth takes from elsewhere, and its session policy: normalizeAuthSessionPolicy,
-- isAllowedAuthSessionTTL, loadAuthSessionPolicy, currentAuthSessionTTL.
use archivon.Prelude.{
  ℕ, Bool, true, not, ◌||◌, Option, none, some, List, [], ◌∷◌, Result, ok, ◌>>=◌, ℤ, pos, pos_part,
  leb_ℤ, eqb_ℤ, if◌then◌else◌, any,
}
use archivon.Text.Trim.{Text, codes, is_empty}
use archivon.Store.{Db, auth_session_policy}
use archivon.Store.Tx.{Failure}

-- authSessionPolicy
pub record AuthPolicy : Type 0 where
  pub enabled : Bool
  pub client_mode : Text
  pub admin_mode : Text
  pub super_admin_mode : Text
  pub auth_ttl_hours : ℤ
  pub allowed_auth_ttl_hours : List ℕ

-- `default_tenant` is the tenant whose slug is 'default'. `bcrypt` is GenerateFromPassword and
-- `password_matches` CompareHashAndPassword; `temporary_password` and `new_token` draw random bytes.
-- `unmarshal_policy` writes the fields of the json text over those of a policy.
pub record AuthEnv : Type 0 where
  pub default_tenant : Option ℕ
  pub bcrypt : Text → Result Failure Text
  pub password_matches : (hash password : Text) → Bool
  pub temporary_password : Result Failure Text
  pub new_token : Result Failure Text
  pub hash_token : Text → Text
  pub session_ttl_hours : ℤ
  pub unmarshal_policy : AuthPolicy → Text → Result Failure AuthPolicy
  pub marshal_policy : AuthPolicy → Result Failure Text

abbrev pub allowed_hours : List ℕ
allowed_hours = 1 ∷ 4 ∷ 8 ∷ 12 ∷ 24 ∷ 72 ∷ 168 ∷ []

unfoldable pub is_allowed_auth_session_ttl : ℤ → Bool
is_allowed_auth_session_ttl hours = any (λ (n : ℕ). eqb_ℤ hours (pos n)) allowed_hours

-- `value == ""` takes the fallback.
abbrev pub text_or : Text → Text → Text
text_or value fallback = if is_empty value then fallback else value

-- `hours <= 0 || !isAllowedAuthSessionTTL(hours)` takes the fallback.
abbrev pub ttl_or : ℤ → ℤ → ℤ
ttl_or hours fallback =
    if leb_ℤ hours (pos 0) || not (is_allowed_auth_session_ttl hours) then fallback else hours

module _ (env : AuthEnv) where
  unfoldable pub normalize_auth_session_policy : AuthPolicy → AuthPolicy
  unfolding is_allowed_auth_session_ttl
  normalize_auth_session_policy p = record {
    enabled = true;
    client_mode = text_or p.client_mode (codes "latest_login_wins");
    admin_mode = text_or p.admin_mode (codes "parallel_allowed");
    super_admin_mode = text_or p.super_admin_mode (codes "parallel_allowed");
    auth_ttl_hours = ttl_or p.auth_ttl_hours (ttl_or env.session_ttl_hours (pos 12));
    allowed_auth_ttl_hours = allowed_hours;
  }

  abbrev pub empty_policy : AuthPolicy
  empty_policy = record {
    enabled = Bool.false;
    client_mode = [];
    admin_mode = [];
    super_admin_mode = [];
    auth_ttl_hours = pos 0;
    allowed_auth_ttl_hours = [];
  }

  unfoldable pub load_auth_session_policy : Db → Result Failure AuthPolicy
  unfolding normalize_auth_session_policy
  load_auth_session_policy d = elim (d.settings auth_session_policy) [
    | none ↦ ok (normalize_auth_session_policy empty_policy)
    | some raw ↦ do
      policy ← env.unmarshal_policy (normalize_auth_session_policy empty_policy) raw
      ok (normalize_auth_session_policy policy)
  ]

  -- the TTL in hours
  unfoldable pub current_auth_session_ttl : Db → Result Failure ℕ
  unfolding load_auth_session_policy
  current_auth_session_ttl d = do
    policy ← load_auth_session_policy d
    ok (pos_part policy.auth_ttl_hours)
