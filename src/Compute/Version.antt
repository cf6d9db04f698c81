-- ===== src/Compute/Version.antt =====
-- Version rolling (BIP 310) in internal/compute: requestedVersionRollingMask and effectiveVersionHex.
-- Numbers of 32 bits are taken bit by bit, the lowest first.
pub mod Mask
use archivon.Prelude.{
  ℕ, zero, suc, ◌+◌, ◌*◌, ◌/◌, ◌%◌, Bool, true, not, ◌&&◌, ◌||◌, Option, none, some, String, Result,
  ok, err, ◌==◌, if◌then◌else◌,
}
use archivon.Text.Trim.{Text, codes, text_eq, trim_space, to_lower}
use archivon.Compute.Hex.{hex_len, parse_uint32, print_digits}

abbrev pub is_odd : ℕ → Bool
is_odd n = n % 2 == 1

-- Bit `i` of a number.
unfoldable pub bit : ℕ → ℕ → Bool
bit zero n = is_odd n
bit (suc i) n = bit i (n / 2)

-- The lowest `w` bits of two numbers, joined bit by bit.
unfoldable pub bitwise : (Bool → Bool → Bool) → ℕ → ℕ → ℕ → ℕ
bitwise f zero a b = 0
bitwise f (suc w) a b = 2 * bitwise f w (a / 2) (b / 2) + (if f (is_odd a) (is_odd b) then 1 else 0)

-- The operators &^, & and | of uint32
abbrev pub and_not_uint32 : ℕ → ℕ → ℕ
and_not_uint32 = bitwise (λ a b. a && not b) 32

abbrev pub and_uint32 : ℕ → ℕ → ℕ
and_uint32 = bitwise (λ a b. a && b) 32

abbrev pub or_uint32 : ℕ → ℕ → ℕ
or_uint32 = bitwise (λ a b. a || b) 32

abbrev pub default_mask : Text
default_mask = codes "00c00000"

abbrev pub zero_mask : Text
zero_mask = codes "00000000"

-- `!hexLen(mask, 8) || mask == "00000000"`
unfoldable pub mask_or_default : Text → Text
unfolding hex_len text_eq
mask_or_default mask = if not (hex_len mask 8) || text_eq mask zero_mask then default_mask else mask

-- requestedVersionRollingMask, of the text under version-rolling.mask where there is one
unfoldable pub requested_version_rolling_mask : Option Text → Text
unfolding mask_or_default trim_space to_lower
requested_version_rolling_mask none = default_mask
requested_version_rolling_mask (some mask) = mask_or_default (to_lower (trim_space mask))

-- (base &^ mask) | (submitted & mask)
unfoldable pub effective_version : (base submitted mask : ℕ) → ℕ
unfolding bitwise
effective_version base submitted mask =
    or_uint32 (and_not_uint32 base mask) (and_uint32 submitted mask)

abbrev pub print_effective : Option ℕ → Option ℕ → Option ℕ → Result String Text
print_effective none submitted mask = err "invalid_base_version"
print_effective (some b) none mask = err "invalid_version_bits"
print_effective (some b) (some s) none = err "invalid_version_mask"
print_effective (some b) (some s) (some m) = ok (print_digits 8 (effective_version b s m))

-- The texts are trimmed and in small letters.
unfoldable pub effective_of_trimmed : (base submitted mask : Text) → Result String Text
unfolding hex_len mask_or_default parse_uint32 effective_version print_digits
effective_of_trimmed base submitted mask =
    if not (hex_len base 8)
    then err "invalid_base_version"
    else if not (hex_len submitted 8)
    then err "invalid_version_bits"
    else print_effective (parse_uint32 base) (parse_uint32 submitted)
        (parse_uint32 (mask_or_default mask))

unfoldable pub effective_version_hex : (base submitted mask : Text) → Bool → Result String Text
unfolding effective_of_trimmed trim_space to_lower
effective_version_hex base submitted mask enabled =
    if not enabled
    then err "version_rolling_not_configured"
    else effective_of_trimmed (to_lower (trim_space base)) (to_lower (trim_space submitted))
        (to_lower (trim_space mask))
