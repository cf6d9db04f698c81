-- ===== src/Compute/Version/Mask.antt =====
-- What version rolling lets a worker change.
use archivon.Prelude.{
  ℕ, zero, suc, ◌+◌, ◌*◌, ◌/◌, ◌<◌, ◌≡◌, refl, ◌∙◌, ap, Bool, true, not, ◌&&◌, ◌||◌, some, ok,
  arith, if◌then◌else◌,
}
use archivon.Text.Trim.{Text, trim_space, to_lower}
use archivon.Compute.Hex.{hex_len, parse_uint32, print_digits}
use archivon.Compute.Hex.Digits.{parse_uint32-print_digits}
use archivon.Compute.Version.{
  and_not_uint32, and_uint32, bit, bitwise, is_odd, mask_or_default, effective_version,
  effective_of_trimmed, effective_version_hex,
}

is_odd-low : (n : ℕ) (b : Bool) → is_odd (2 * n + (if b then 1 else 0)) ≡ b
is_odd-low n b = ground arith

half-low : (n : ℕ) (b : Bool) → (2 * n + (if b then 1 else 0)) / 2 ≡ n
half-low n b = ground arith

pub bit-bitwise :
    (f : Bool → Bool → Bool) (w i a b : ℕ) → i < w → bit i (bitwise f w a b) ≡ f (bit i a) (bit i b)
unfolding bit bitwise
bit-bitwise f zero i a b h = ground arith
bit-bitwise f (suc w) zero a b h =
    is_odd-low (bitwise f w (a / 2) (b / 2)) (f (is_odd a) (is_odd b))
bit-bitwise f (suc w) (suc i) a b h =
    ap (bit i) (half-low (bitwise f w (a / 2) (b / 2)) (f (is_odd a) (is_odd b)))
    ∙ bit-bitwise f w i (a / 2) (b / 2) (omega arith)

-- 2 to the power of the width.
abbrev twos : ℕ → ℕ
twos zero = 1
twos (suc w) = 2 * twos w

bitwise-bound : (f : Bool → Bool → Bool) (w a b : ℕ) → bitwise f w a b < twos w
unfolding bitwise
bitwise-bound f zero a b = omega arith
bitwise-bound f (suc w) a b = ground (arith, bitwise-bound f w (a / 2) (b / 2))

effective_version-bound :
    (base submitted mask : ℕ) → effective_version base submitted mask < 4294967296
unfolding effective_version
effective_version-bound base submitted mask =
    bitwise-bound (λ a b. a || b) 32 (and_not_uint32 base mask) (and_uint32 submitted mask)

bit-effective_version :
    (base submitted mask i : ℕ)
    → i < 32
    → bit i (effective_version base submitted mask)
      ≡ (if bit i mask then bit i submitted else bit i base)
unfolding effective_version
bit-effective_version base submitted mask i h =
    rw
      (
        bit-bitwise (λ a b. a || b) 32 i (bitwise (λ a b. a && not b) 32 base mask)
            (bitwise (λ a b. a && b) 32 submitted mask) h,
        bit-bitwise (λ a b. a && not b) 32 i base mask h,
        bit-bitwise (λ a b. a && b) 32 i submitted mask h,
      )
      (by_bits (bit i base) (bit i submitted) (bit i mask))
  where
    by_bits : (b s m : Bool) → ((b && not m) || (s && m)) ≡ (if m then s else b)
    by_bits b s m = ground arith

effective_of_trimmed_lem :
    (base submitted mask : Text) (b s m : ℕ)
    → hex_len base 8 ≡ true
    → hex_len submitted 8 ≡ true
    → parse_uint32 base ≡ some b
    → parse_uint32 submitted ≡ some s
    → parse_uint32 (mask_or_default mask) ≡ some m
    → effective_of_trimmed base submitted mask ≡ ok (print_digits 8 (effective_version b s m))
unfolding effective_of_trimmed
effective_of_trimmed_lem base submitted mask b s m h k e f g = rw (h, k, e, f, g) refl

-- A worker that may roll versions gets a version for every well-formed pair of base and submitted
-- version: each of its 32 bits is the submitted one where the mask has the bit set, and the bit of the
-- version that the gateway sent everywhere else.
pub effective_version_hex-bits :
    (base submitted mask : Text) (b s m : ℕ)
    → hex_len (to_lower (trim_space base)) 8 ≡ true
    → hex_len (to_lower (trim_space submitted)) 8 ≡ true
    → parse_uint32 (to_lower (trim_space base)) ≡ some b
    → parse_uint32 (to_lower (trim_space submitted)) ≡ some s
    → parse_uint32 (mask_or_default (to_lower (trim_space mask))) ≡ some m
    → (version : Text) × (v : ℕ) × (effective_version_hex base submitted mask true ≡ ok version)
      × (parse_uint32 version ≡ some v)
      × ((i : ℕ) → i < 32 → bit i v ≡ (if bit i m then bit i s else bit i b))
unfolding effective_version_hex
effective_version_hex-bits base submitted mask b s m h k e f g = (
  print_digits 8 (effective_version b s m),
  effective_version b s m,
  effective_of_trimmed_lem (to_lower (trim_space base)) (to_lower (trim_space submitted))
      (to_lower (trim_space mask)) b s m h k e f g,
  parse_uint32-print_digits (effective_version b s m) (effective_version-bound b s m),
  bit-effective_version b s m,
)
