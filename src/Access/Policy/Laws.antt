-- ===== src/Access/Policy/Laws.antt =====
-- What a policy is after normalizePolicy and validatePolicy, and the bounds of the work it asks for.
use archivon.Prelude.{
  ℕ, ◌*◌, ◌≤◌, ◌<◌, ◌≡◌, refl, false, none, ◌⊎◌, ◌↔◌, ℤ, pos, negsuc, pos_part, leb_ℤ, arith,
}
use archivon.Access.Policy.{Policy, one, normalize_policy, validate_policy, outside, none_of4}

abbrev pub OneOf4 : ℕ → ℕ → ℕ → ℕ → ℤ → Type 0
OneOf4 a b c d x = (x ≡ pos a) ⊎ ((x ≡ pos b) ⊎ ((x ≡ pos c) ⊎ (x ≡ pos d)))

abbrev pub Within : ℕ → ℕ → ℤ → Type 0
Within lo hi x = (n : ℕ) × (x ≡ pos n) × (lo ≤ n) × (n ≤ hi)

-- The ranges of a valid policy.
pub record IsValid (p : Policy) : Type 0 where
  pub rate : (n : ℕ) × (p.required_hashrate ≡ pos n) × (0 < n)
  pub tolerance : Within 0 (50 * one) p.tolerance
  pub window : Within 5 600 p.proof_window_seconds
  pub attempts : Within 1 10 p.max_proof_attempts
  pub timeout : OneOf4 5 10 15 30 p.job_timeout_minutes
  pub ttl : OneOf4 10 15 30 60 p.session_ttl_minutes

Within-of_test : (lo hi : ℕ) (x : ℤ) → outside lo hi x ≡ false → Within lo hi x
Within-of_test lo hi (pos n) h = (n, refl, ground arith, ground arith)
Within-of_test lo hi (negsuc n) h = absurd (ground arith)

outside-Within : (lo hi : ℕ) (x : ℤ) → Within lo hi x → outside lo hi x ≡ false
outside-Within lo hi x (n, e, low, high) = rw e (ground arith)

OneOf4-of_test : (a b c d : ℕ) (x : ℤ) → none_of4 a b c d x ≡ false → OneOf4 a b c d x
OneOf4-of_test a b c d (pos n) h = ground arith
OneOf4-of_test a b c d (negsuc n) h = ground arith

none_of4-OneOf4 : (a b c d : ℕ) (x : ℤ) → OneOf4 a b c d x → none_of4 a b c d x ≡ false
none_of4-OneOf4 a b c d x h = ground arith

rate_of_test : (x : ℤ) → leb_ℤ x (pos 0) ≡ false → (n : ℕ) × (x ≡ pos n) × (0 < n)
rate_of_test (pos n) h = (n, refl, ground arith)
rate_of_test (negsuc n) h = absurd (ground arith)

-- validatePolicy accepts exactly the policies whose rate is positive, whose tolerance is at most 50
-- percent, whose window is 5 to 600 seconds with 1 to 10 attempts, and whose two times are listed.
pub validate_policy_iff : (p : Policy) → (validate_policy p ≡ none) ↔ IsValid p
unfolding validate_policy
validate_policy_iff p = (
  λ h. record {
    rate = rate_of_test p.required_hashrate (ground (arith, h));
    tolerance = Within-of_test 0 (50 * one) p.tolerance (ground (arith, h));
    window = Within-of_test 5 600 p.proof_window_seconds (ground (arith, h));
    attempts = Within-of_test 1 10 p.max_proof_attempts (ground (arith, h));
    timeout = OneOf4-of_test 5 10 15 30 p.job_timeout_minutes (ground (arith, h));
    ttl = OneOf4-of_test 10 15 30 60 p.session_ttl_minutes (ground (arith, h));
  },
  λ v. rw (v.rate.1) (
      ground (
        arith,
        outside-Within 0 (50 * one) p.tolerance v.tolerance,
        outside-Within 5 600 p.proof_window_seconds v.window,
        outside-Within 1 10 p.max_proof_attempts v.attempts,
        none_of4-OneOf4 5 10 15 30 p.job_timeout_minutes v.timeout,
        none_of4-OneOf4 10 15 30 60 p.session_ttl_minutes v.ttl,
        v.rate.2,
      )),
)

-- A policy that is normal is not changed again.
pub normalize_policy_idempotent :
    (p : Policy) → normalize_policy (normalize_policy p) ≡ normalize_policy p
unfolding normalize_policy
normalize_policy_idempotent p = ground arith

-- The percentage `t` that counts: the tolerance, from 0 to 90 percent.
abbrev pub IsCut : ℤ → ℕ → Type 0
IsCut tolerance t =
    (t ≤ 90 * one) × ((pos_part tolerance ≡ t) ⊎ ((90 * one < pos_part tolerance) × (t ≡ 90 * one)))
