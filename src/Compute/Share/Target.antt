-- ===== src/Compute/Share/Target.antt =====
-- The target of a difficulty, and its text read back.
use archivon.Prelude.{
  ℕ, zero, suc, ◌*◌, ◌/◌, ◌%◌, ◌≤◌, ◌<◌, ◌≡◌, ◌∙◌, ap, [], ◌∷◌, ◌++◌, some, ok, arith, pos, ℤ, All,
  length, Result-cases, inl, inr,
}
use archivon.Text.Trim.{Text}
use archivon.Compute.Hex.{digit_char, digits_after, print_digits}
use archivon.Compute.Hex.Digits.{sixteens, digits_after-print_digits, length-print_digits}
use archivon.Compute.Coinbase.{build_valid_coinbase_parts}
use archivon.Compute.Share.{
  Difficulty, millionths, target_for_difficulty, bound_target, max_target, diff1_target, set_string,
  RunningJob, WorkSource, Work, build_work, work_for,
}

-- A byte that is no sign.
abbrev Plain : ℕ → Type 0
Plain c = b'-' < c

Plain-append : (s : Text) (c : ℕ) → All Plain s → Plain c → All Plain (s ++ (c ∷ []))
Plain-append [] c h k = (k, tt)
Plain-append (x ∷ s) c (h, hs) k = (h, Plain-append s c hs k)

Plain-digit_char : (v : ℕ) → Plain (digit_char v)
unfolding digit_char
Plain-digit_char v = ground arith

Plain-print_digits : (w n : ℕ) → All Plain (print_digits w n)
unfolding print_digits
Plain-print_digits zero n = tt
Plain-print_digits (suc w) n =
    Plain-append (print_digits w (n / 16)) (digit_char (n % 16)) (Plain-print_digits w (n / 16))
      (Plain-digit_char (n % 16))

set_string-Plain :
    (s : Text) (n : ℕ)
    → 0 < length s
    → All Plain s
    → digits_after 0 s ≡ some n
    → set_string s ≡ some (pos n)
unfolding set_string
set_string-Plain [] n h k e = ground arith
set_string-Plain (c ∷ s) n h (k, ks) e = ground (arith, e)

pub set_string-print_digits :
    (n : ℕ) → n < sixteens 64 → set_string (print_digits 64 n) ≡ some (pos n)
set_string-print_digits n h =
    set_string-Plain (print_digits 64 n) n (omega (arith, length-print_digits 64 n))
      (Plain-print_digits 64 n) (digits_after-print_digits 64 n h)

bound_target-range : (q t : ℕ) → bound_target q ≡ ok t → (0 < t) × (t ≤ max_target)
bound_target-range zero t h = ground arith
bound_target-range (suc q) t h = ground (arith, h)

pub target_for_difficulty-range :
    (d : Difficulty) (t : ℕ) → target_for_difficulty d ≡ ok t → (0 < t) × (t ≤ max_target)
unfolding target_for_difficulty
target_for_difficulty-range Difficulty.nan t h = cc
target_for_difficulty-range Difficulty.infinity t h = cc
target_for_difficulty-range Difficulty.minus_infinity t h = cc
target_for_difficulty-range (millionths (ℤ.negsuc n)) t h = cc
target_for_difficulty-range (millionths (pos zero)) t h = cc
target_for_difficulty-range (millionths (pos (suc d))) t h =
    bound_target-range (diff1_target * 1000000 / suc d) t h

-- The parts that a work is built of.
pub build_work_parts :
    (src : WorkSource) (job : RunningJob) (extranonce1 : Text) (difficulty : Difficulty) (size : ℤ)
    (w : Work)
    → build_work src job extranonce1 difficulty size ≡ ok w
    → (t : ℕ) × (coinb : Text × Text) × (target_for_difficulty difficulty ≡ ok t)
      × (w ≡ work_for src job extranonce1 difficulty t coinb)
unfolding build_work
build_work_parts src job extranonce1 difficulty size w h =
    elim (Result-cases (target_for_difficulty difficulty)) [
      | inl (t, e) ↦ elim (Result-cases (build_valid_coinbase_parts extranonce1 size)) [
        | inl (c, f) ↦ (t, c, e, ground (arith, h, e, f))
        | inr (r, f) ↦ ground (arith, h, e, f)
      ]
      | inr (r, e) ↦ ground (arith, h, e)
    ]

-- The work that the gateway builds carries a target that reads back as the target of its difficulty.
pub build_work-target :
    (src : WorkSource) (job : RunningJob) (extranonce1 : Text) (difficulty : Difficulty) (size : ℤ)
    (w : Work)
    → build_work src job extranonce1 difficulty size ≡ ok w
    → (t : ℕ) × (target_for_difficulty difficulty ≡ ok t) × (set_string w.target_hex ≡ some (pos t))
unfolding work_for
build_work-target src job extranonce1 difficulty size w h =
    let parts = build_work_parts src job extranonce1 difficulty size w h in
    let t = parts.0 in
    (
      t,
      parts.2,
      ap (λ (v : Work). set_string v.target_hex) parts.3
          ∙ set_string-print_digits t
              (omega (arith, target_for_difficulty-range difficulty t parts.2)),
    )
