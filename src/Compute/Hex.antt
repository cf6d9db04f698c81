-- ===== src/Compute/Hex.antt =====
-- Hexadecimal text in internal/compute: encoding/hex and fmt's %0wx as the service calls them, hexLen,
-- reverseBytes, reverseHexBytes and reverseHexWords. Bytes are numbers under 256.
pub mod Digits
pub mod Reversal
use archivon.Prelude.{
  ℕ, zero, suc, ◌+◌, ◌-◌, ◌*◌, ◌/◌, ◌%◌, Bool, false, ◌&&◌, Option, none, some, List, [], ◌∷◌, ◌++◌,
  reverse, leb, ◌==◌, if◌then◌else◌, length,
}
use archivon.Text.Trim.{Text, trim_space, to_lower}

-- The value of one digit.
unfoldable pub digit_value : ℕ → Option ℕ
digit_value c =
    if leb b'0' c && leb c b'9'
    then some (c - b'0')
    else if leb b'a' c && leb c b'f'
    then some (c - b'a' + 10)
    else if leb b'A' c && leb c b'F'
    then some (c - b'A' + 10)
    else none

-- The small letter or figure of a value under 16.
unfoldable pub digit_char : ℕ → ℕ
digit_char v = if leb v 9 then b'0' + v else b'a' + (v - 10)

abbrev pub byte_before : Option ℕ → Option ℕ → Option Text → Option Text
byte_before (some hi) (some lo) (some bytes) = some ((hi * 16 + lo) ∷ bytes)
byte_before _ _ _ = none

-- hex.DecodeString; an odd length is an error.
unfoldable pub decode_string : Text → Option Text
unfolding digit_value
decode_string [] = some []
decode_string (c ∷ []) = none
decode_string (c ∷ d ∷ s) = byte_before (digit_value c) (digit_value d) (decode_string s)

-- hex.EncodeToString
unfoldable pub encode_to_string : Text → Text
unfolding digit_char
encode_to_string [] = []
encode_to_string (b ∷ bs) = digit_char (b / 16) ∷ digit_char (b % 16) ∷ encode_to_string bs

abbrev pub is_some {ℓ} : {A : Type ℓ} → Option A → Bool
is_some none = false
is_some (some a) = Bool.true

unfoldable pub hex_len : Text → ℕ → Bool
unfolding decode_string
hex_len value len =
    let v = to_lower (trim_space value) in length v == len && is_some (decode_string v)

abbrev pub next_digit : ℕ → Option ℕ → Option ℕ
next_digit acc none = none
next_digit acc (some d) = some (acc * 16 + d)

-- The digits read from the left, after the value `acc`.
unfoldable pub digits_after : ℕ → Text → Option ℕ
unfolding digit_value
digits_after acc [] = some acc
digits_after acc (c ∷ s) = elim (digit_value c) [
  | none ↦ none
  | some d ↦ digits_after (acc * 16 + d) s
]

-- strconv.ParseUint(s, 16, 32)
unfoldable pub parse_uint32 : Text → Option ℕ
unfolding digits_after
parse_uint32 [] = none
parse_uint32 (c ∷ s) = elim (digits_after 0 (c ∷ s)) [
  | none ↦ none
  | some n ↦ (if leb n 4294967295 then some n else none)
]

-- fmt.Sprintf("%0wx", n) of a number that has at most `w` digits
unfoldable pub print_digits : ℕ → ℕ → Text
unfolding digit_char
print_digits zero n = []
print_digits (suc w) n = print_digits w (n / 16) ++ (digit_char (n % 16) ∷ [])

unfoldable pub reverse_bytes : Text → Text
reverse_bytes raw = reverse raw

unfoldable pub reverse_hex_bytes : Text → Option Text
unfolding decode_string reverse_bytes
reverse_hex_bytes value = elim (decode_string (to_lower (trim_space value))) [
  | none ↦ none
  | some raw ↦ some (reverse_bytes raw)
]

-- The loop that turns every word of four bytes; `none` where a word is cut short.
unfoldable pub swap_words : Text → Option Text
swap_words [] = some []
swap_words (a ∷ b ∷ c ∷ d ∷ s) = elim (swap_words s) [
  | none ↦ none
  | some t ↦ some (d ∷ c ∷ b ∷ a ∷ t)
]
swap_words (a ∷ []) = none
swap_words (a ∷ b ∷ []) = none
swap_words (a ∷ b ∷ c ∷ []) = none

unfoldable pub reverse_hex_words : Text → Option Text
unfolding decode_string swap_words
reverse_hex_words value = elim (decode_string (to_lower (trim_space value))) [
  | none ↦ none
  | some raw ↦ swap_words raw
]
