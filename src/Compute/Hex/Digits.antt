-- ===== src/Compute/Hex/Digits.antt =====
-- Round trips of hexadecimal text.
use archivon.Prelude.{
  ℕ, zero, suc, ◌+◌, ◌*◌, ◌/◌, ◌%◌, ◌<◌, ◌≡◌, ◌∙◌, refl, ap, sym, Option-cases, inl, inr, Option,
  some, [], ◌∷◌, ◌++◌, arith, length, length-append, All,
}
use archivon.Text.Trim.{Text}
use archivon.Compute.Hex.{
  digit_value, digit_char, decode_string, encode_to_string, digits_after, parse_uint32,
  print_digits,
}

-- 16 to the power of the number of digits.
abbrev pub sixteens : ℕ → ℕ
sixteens zero = 1
sixteens (suc w) = 16 * sixteens w

pub digit_value-digit_char : (v : ℕ) → v < 16 → digit_value (digit_char v) ≡ some v
unfolding digit_value digit_char
digit_value-digit_char v h = ground arith

head_eq : {a b : ℕ} {bs : Text} → a ≡ b → Path (Option Text) (some (a ∷ bs)) (some (b ∷ bs))
head_eq h = cc

-- A text of bytes that is encoded and decoded again is unchanged.
pub decode_string-encode_to_string :
    (bytes : Text) → All (λ b. b < 256) bytes → decode_string (encode_to_string bytes) ≡ some bytes
unfolding decode_string encode_to_string
decode_string-encode_to_string [] h = refl
decode_string-encode_to_string (b ∷ bs) (h, hs) =
    rw
      (
        digit_value-digit_char (b / 16) (omega arith),
        digit_value-digit_char (b % 16) (omega arith),
        decode_string-encode_to_string bs hs,
      )
      (head_eq (omega arith))

pub length-encode_to_string : (bytes : Text) → length (encode_to_string bytes) ≡ 2 * length bytes
unfolding encode_to_string
length-encode_to_string [] = refl
length-encode_to_string (b ∷ bs) = omega (arith, length-encode_to_string bs)

digits_after-cons :
    (acc x v : ℕ) (s : Text)
    → digit_value x ≡ some v
    → digits_after acc (x ∷ s) ≡ digits_after (acc * 16 + v) s
unfolding digits_after
digits_after-cons acc x v s e = rw (digits_after, e) refl

digits_after-append :
    (acc n : ℕ) (s : Text) (c d : ℕ)
    → digits_after acc s ≡ some n
    → digit_value c ≡ some d
    → digits_after acc (s ++ (c ∷ [])) ≡ some (n * 16 + d)
unfolding digits_after
digits_after-append acc n [] c d h k = rw (digits_after, k) ground (arith, h)
digits_after-append acc n (x ∷ s) c d h k = elim (Option-cases (digit_value x)) [
  | inl e ↦ ground (arith, e, h)
  | inr (v, e) ↦
      rw (digits_after, e)
        (digits_after-append (acc * 16 + v) n s c d (rw (sym (digits_after-cons acc x v s e)) h) k)
]

pub digits_after-print_digits :
    (w n : ℕ) → n < sixteens w → digits_after 0 (print_digits w n) ≡ some n
unfolding print_digits digits_after
digits_after-print_digits zero n h = ap some (omega arith)
digits_after-print_digits (suc w) n h =
    digits_after-append 0 (n / 16) (print_digits w (n / 16)) (digit_char (n % 16)) (n % 16)
      (digits_after-print_digits w (n / 16) (omega arith))
      (digit_value-digit_char (n % 16) (omega arith))
    ∙ ap some (omega arith)

pub length-print_digits : (w n : ℕ) → length (print_digits w n) ≡ w
unfolding print_digits
length-print_digits zero n = refl
length-print_digits (suc w) n =
    length-append (print_digits w (n / 16)) (digit_char (n % 16) ∷ [])
    ∙ omega (arith, length-print_digits w (n / 16))

parse_uint32_of_digits :
    (s : Text) (n : ℕ)
    → 0 < length s
    → n < 4294967296
    → digits_after 0 s ≡ some n
    → parse_uint32 s ≡ some n
unfolding parse_uint32
parse_uint32_of_digits [] n h k e = ground arith
parse_uint32_of_digits (c ∷ s) n h k e = ground (arith, e)

-- A number of 32 bits that is printed with %08x and read back by ParseUint(s, 16, 32) is unchanged.
pub parse_uint32-print_digits : (n : ℕ) → n < 4294967296 → parse_uint32 (print_digits 8 n) ≡ some n
parse_uint32-print_digits n h =
    parse_uint32_of_digits (print_digits 8 n) n (omega (arith, length-print_digits 8 n)) h
      (digits_after-print_digits 8 n h)
