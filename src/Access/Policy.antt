-- ===== src/Access/Policy.antt =====
-- The proof-of-work policy of internal/access: normalizePolicy, validatePolicy, requiredWorkTH,
-- acceptedHashrateTHs. The fields that a request sends are signed; a float64 stands as a number of
-- millionths, which is the resolution of its column, and products are rounded down to it.
pub mod Laws
use archivon.Prelude.{
  ℕ, suc, ◌+◌, ◌-◌, ◌*◌, ◌/◌, ◌≤◌, ◌<◌, ◌≡◌, refl, Bool, true, false, not, ◌&&◌, ◌||◌, Option, none,
  some, List, [], ◌∷◌, ℤ, pos, negsuc, pos_part, neg_part, ltb_ℤ, leb_ℤ, eqb_ℤ, String, Result, ok,
  err, arith, leb, if◌then◌else◌,
}

pub record Policy : Type 0 where
  pub required_hashrate : ℤ
  pub min_workers : ℤ
  pub tolerance : ℤ
  pub proof_window_seconds : ℤ
  pub max_proof_attempts : ℤ
  pub job_timeout_minutes : ℤ
  pub session_ttl_minutes : ℤ
  pub allowed_session_ttl_minutes : List ℤ
  pub single_active_session : Bool
  pub heartbeat_enabled : Bool
  pub upload_pow_required : Bool

abbrev pub default_proof_window_seconds : ℕ
default_proof_window_seconds = 60

abbrev pub default_max_proof_attempts : ℕ
default_max_proof_attempts = 3

-- One, as a number of millionths.
abbrev pub one : ℕ
one = 1000000

unfoldable pub normalize_positive_int : ℤ → ℕ → ℕ
normalize_positive_int value fallback = if ltb_ℤ (pos 0) value then pos_part value else fallback

-- `if value <= 0 { value = fallback }`
abbrev pub positive_or : ℤ → ℤ → ℤ
positive_or value fallback = if leb_ℤ value (pos 0) then fallback else value

abbrev pub nonempty_or {ℓ} : {A : Type ℓ} → List A → List A → List A
nonempty_or [] ys = ys
nonempty_or (x ∷ xs) ys = x ∷ xs

unfoldable pub normalize_policy : Policy → Policy
normalize_policy p = record p {
  required_hashrate = positive_or p.required_hashrate (pos one);
  min_workers = pos 1;
  proof_window_seconds = positive_or p.proof_window_seconds (pos default_proof_window_seconds);
  max_proof_attempts = positive_or p.max_proof_attempts (pos default_max_proof_attempts);
  job_timeout_minutes = positive_or p.job_timeout_minutes (pos 15);
  session_ttl_minutes = positive_or p.session_ttl_minutes (pos 30);
  allowed_session_ttl_minutes =
      nonempty_or p.allowed_session_ttl_minutes (pos 10 ∷ pos 15 ∷ pos 30 ∷ pos 60 ∷ []);
  single_active_session = true;
  heartbeat_enabled = false;
  upload_pow_required = false;
}

pub data PolicyError : Type 0 where
  required_hashrate_invalid hashrate_tolerance_invalid proof_window_invalid : PolicyError
  max_proof_attempts_invalid job_timeout_invalid session_ttl_invalid : PolicyError

-- `x < lo || x > hi`
abbrev pub outside : ℕ → ℕ → ℤ → Bool
outside lo hi x = ltb_ℤ x (pos lo) || ltb_ℤ (pos hi) x

abbrev pub none_of4 : ℕ → ℕ → ℕ → ℕ → ℤ → Bool
none_of4 a b c d x =
    not (eqb_ℤ x (pos a))
    && (not (eqb_ℤ x (pos b)) && (not (eqb_ℤ x (pos c)) && not (eqb_ℤ x (pos d))))

-- The `switch` of validatePolicy; `none` is its nil error.
unfoldable pub validate_policy : Policy → Option PolicyError
validate_policy p =
    if leb_ℤ p.required_hashrate (pos 0)
    then some required_hashrate_invalid
    else if outside 0 (50 * one) p.tolerance
    then some hashrate_tolerance_invalid
    else if outside 5 600 p.proof_window_seconds
    then some proof_window_invalid
    else if outside 1 10 p.max_proof_attempts
    then some max_proof_attempts_invalid
    else if none_of4 5 10 15 30 p.job_timeout_minutes
    then some job_timeout_invalid
    else if none_of4 10 15 30 60 p.session_ttl_minutes
    then some session_ttl_invalid
    else none

-- The tolerance between 0 and 90 percent.
abbrev pub clamp_tolerance : ℤ → ℕ
clamp_tolerance t = if leb (pos_part t) (90 * one) then pos_part t else 90 * one

-- required * (1 - tolerance / 100)
unfoldable pub accepted_hashrate : Policy → ℕ
accepted_hashrate p =
    pos_part p.required_hashrate * (100 * one - clamp_tolerance p.tolerance) / (100 * one)

unfoldable pub required_work : Policy → ℕ
unfolding accepted_hashrate
required_work p = accepted_hashrate p * pos_part p.proof_window_seconds
