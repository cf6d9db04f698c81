-- ===== src/Compute/Coinbase.antt =====
-- compactSize and buildValidCoinbaseParts of internal/compute: the two halves of the coinbase
-- transaction round the two extra nonces.
pub mod Layout
use archivon.Prelude.{
  ℕ, zero, suc, ◌+◌, ◌/◌, ◌%◌, ◌^◌, List, [], ◌∷◌, ◌++◌, Option, none, some, String, Result, ok,
  err, ℤ, pos, negsuc, leb, ltb, if◌then◌else◌, length, replicate,
}
use archivon.Text.Trim.{Text, codes, trim_space}
use archivon.Compute.Hex.{decode_string, encode_to_string}

-- byte(value), byte(value >> 8), ... : `n` bytes, the lowest first
abbrev pub low_bytes : ℕ → ℕ → Text
low_bytes zero value = []
low_bytes (suc n) value = value % 256 ∷ low_bytes n (value / 256)

-- compactSize of a size that is not negative
unfoldable pub compact_size_of : ℕ → Text
compact_size_of value =
    if ltb value 253
    then low_bytes 1 value
    else if leb value 65535
    then 253 ∷ low_bytes 2 value
    else if leb value 4294967295
    then 254 ∷ low_bytes 4 value
    else 255 ∷ low_bytes 8 value

unfoldable pub compact_size : ℤ → Text
unfolding compact_size_of
compact_size (negsuc n) = 0 ∷ []
compact_size (pos n) = compact_size_of n

-- The script starts with the height 1 and a tag.
abbrev pub script_prefix : Text
script_prefix = 3 ∷ 1 ∷ 0 ∷ 0 ∷ codes "Archivon"

-- One version, one input without a previous output, and the length of its script.
unfoldable pub coinbase_head : (script_len : ℕ) → Text
unfolding compact_size
coinbase_head script_len =
    (1 ∷ 0 ∷ 0 ∷ 0 ∷ 1 ∷ [])
    ++ (replicate 32 0 ++ (replicate 4 255 ++ (compact_size (pos script_len) ++ script_prefix)))

-- The sequence, one output of no value to an OP_TRUE script, and the lock time.
abbrev pub coinbase_tail : Text
coinbase_tail = replicate 4 255 ++ (1 ∷ replicate 8 0 ++ (1 ∷ 81 ∷ replicate 4 0))

abbrev pub coinbase_parts : Option Text → ℤ → Result String (Text × Text)
coinbase_parts none size = err "invalid_extranonce1"
coinbase_parts (some n1) (negsuc n) = err "invalid_extranonce2_size"
coinbase_parts (some n1) (pos size) = ok (
  encode_to_string (coinbase_head (length script_prefix + length n1 + size)),
  encode_to_string coinbase_tail,
)

unfoldable pub build_valid_coinbase_parts : (extranonce1 : Text) → ℤ → Result String (Text × Text)
unfolding trim_space decode_string encode_to_string coinbase_head
build_valid_coinbase_parts extranonce1 extranonce2_size =
    coinbase_parts (decode_string (trim_space extranonce1)) extranonce2_size
