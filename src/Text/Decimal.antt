-- ===== src/Text/Decimal.antt =====
-- fmt's %d and %.6f of numbers that are not negative, a fraction given as a number of its last digits'
-- units.
use archivon.Prelude.{
  ℕ, zero, suc, ◌+◌, ◌-◌, ◌*◌, ◌/◌, ◌%◌, ◌<◌, ◌≡◌, ◌∙◌, refl, ap, sym, false, [], ◌∷◌, ◌++◌, ltb,
  if◌then◌else◌, ◌==◌, arith, Bool-cases, inl, inr,
}
use archivon.Text.Trim.{Text}
use archivon.Text.Parts.{has, parts_agree, any-append}

-- The digits of a number under the fuel.
unfoldable pub decimal_digits : (fuel n : ℕ) → Text
decimal_digits zero n = []
decimal_digits (suc fuel) n =
    let rest = decimal_digits fuel (n / 10) in
    if ltb n 10 then (48 + n) ∷ [] else rest ++ ((48 + n % 10) ∷ [])

-- %d
unfoldable pub print_decimal : ℕ → Text
unfolding decimal_digits
print_decimal n = decimal_digits (suc n) n

-- `w` digits, with zeros in front
unfoldable pub print_padded : (w n : ℕ) → Text
print_padded zero n = []
print_padded (suc w) n = print_padded w (n / 10) ++ ((48 + n % 10) ∷ [])

abbrev pub tens : ℕ → ℕ
tens zero = 1
tens (suc w) = 10 * tens w

-- %.6f of n / 10^6, and %.2f of n / 10^2
unfoldable pub print_fixed6 : ℕ → Text
unfolding print_decimal print_padded
print_fixed6 n = print_decimal (n / 1000000) ++ (46 ∷ print_padded 6 (n % 1000000))

unfoldable pub print_fixed2 : ℕ → Text
unfolding print_decimal print_padded
print_fixed2 n = print_decimal (n / 100) ++ (46 ∷ print_padded 2 (n % 100))

-- The number that digits after the value `acc` give.
read_digits : ℕ → Text → ℕ
read_digits acc [] = acc
read_digits acc (c ∷ s) = read_digits (acc * 10 + (c - 48)) s

read_digits-append :
    (acc : ℕ) (s : Text) (d : ℕ)
    → read_digits acc (s ++ ((48 + d) ∷ [])) ≡ read_digits acc s * 10 + d
unfolding read_digits
read_digits-append acc [] d = omega arith
read_digits-append acc (c ∷ s) d = read_digits-append (acc * 10 + (c - 48)) s d

read_digits-decimal_digits : (fuel n : ℕ) → n < fuel → read_digits 0 (decimal_digits fuel n) ≡ n
unfolding decimal_digits read_digits
read_digits-decimal_digits zero n h = absurd (omega (arith, h))
read_digits-decimal_digits (suc fuel) n h = ground (
  arith,
  read_digits-append 0 (decimal_digits fuel (n / 10)) (n % 10),
  read_digits-decimal_digits fuel (n / 10),
)

pub print_decimal_agree : (m n : ℕ) → print_decimal m ≡ print_decimal n → m ≡ n
unfolding print_decimal
print_decimal_agree m n e =
    sym (read_digits-decimal_digits (suc m) m (omega arith))
    ∙ ap (read_digits 0) e
    ∙ read_digits-decimal_digits (suc n) n (omega arith)

read_digits-print_padded : (w n : ℕ) → n < tens w → read_digits 0 (print_padded w n) ≡ n
unfolding print_padded read_digits
read_digits-print_padded zero n h = omega (arith, h)
read_digits-print_padded (suc w) n h =
    read_digits-append 0 (print_padded w (n / 10)) (n % 10)
    ∙ omega (arith, read_digits-print_padded w (n / 10) (omega (arith, h)))

print_padded_agree :
    (w m n : ℕ) → m < tens w → n < tens w → print_padded w m ≡ print_padded w n → m ≡ n
print_padded_agree w m n h k e =
    sym (read_digits-print_padded w m h) ∙ ap (read_digits 0) e ∙ read_digits-print_padded w n k

-- Digits are neither a point nor a line break.
digits_have_no : (sep fuel n : ℕ) → sep < 48 → has sep (decimal_digits fuel n) ≡ false
unfolding decimal_digits
digits_have_no sep zero n h = refl
digits_have_no sep (suc fuel) n h = elim (Bool-cases (ltb n 10)) [
  | inl e ↦ rw (e) (ground (arith, h))
  | inr e ↦ rw (e) (
      any-append (λ c. c == sep) (decimal_digits fuel (n / 10)) ((48 + n % 10) ∷ [])
        (digits_have_no sep fuel (n / 10) h) (ground (arith, h)))
]

pub print_decimal-has_no : (sep n : ℕ) → sep < 48 → has sep (print_decimal n) ≡ false
unfolding print_decimal
print_decimal-has_no sep n h = digits_have_no sep (suc n) n h

padded_has_no : (sep w n : ℕ) → sep < 48 → has sep (print_padded w n) ≡ false
unfolding print_padded
padded_has_no sep zero n h = refl
padded_has_no sep (suc w) n h =
    any-append (λ c. c == sep) (print_padded w (n / 10)) ((48 + n % 10) ∷ [])
      (padded_has_no sep w (n / 10) h) (ground (arith, h))

-- A number with `w` digits after the point.
abbrev pub pointed : (w whole fraction : ℕ) → Text
pointed w whole fraction = print_decimal whole ++ (46 ∷ print_padded w fraction)

pointed-has_newline : (w whole fraction : ℕ) → has 10 (pointed w whole fraction) ≡ false
pointed-has_newline w whole fraction =
    any-append (λ c. c == 10) (print_decimal whole) (46 ∷ print_padded w fraction)
      (print_decimal-has_no 10 whole (omega arith)) (padded_has_no 10 w fraction (omega arith))

pointed_agree :
    (w a b c d : ℕ) → b < tens w → d < tens w → pointed w a b ≡ pointed w c d → (a ≡ c) × (b ≡ d)
pointed_agree w a b c d h k e =
    let (whole, fraction) =
      parts_agree 46 (print_decimal a) (print_decimal c) (print_padded w b) (print_padded w d)
        (print_decimal-has_no 46 a (omega arith)) (print_decimal-has_no 46 c (omega arith)) e in
    (print_decimal_agree a c whole, print_padded_agree w b d h k fraction)

pub print_fixed6_agree : (m n : ℕ) → print_fixed6 m ≡ print_fixed6 n → m ≡ n
unfolding print_fixed6
print_fixed6_agree m n e =
    let (whole, fraction) =
      pointed_agree 6 (m / 1000000) (m % 1000000) (n / 1000000) (n % 1000000) (omega arith)
        (omega arith) e in
    omega (arith, whole, fraction)

pub print_fixed2_agree : (m n : ℕ) → print_fixed2 m ≡ print_fixed2 n → m ≡ n
unfolding print_fixed2
print_fixed2_agree m n e =
    let (whole, fraction) =
      pointed_agree 2 (m / 100) (m % 100) (n / 100) (n % 100) (omega arith) (omega arith) e in
    omega (arith, whole, fraction)

pub print_fixed6-has_newline : (n : ℕ) → has 10 (print_fixed6 n) ≡ false
unfolding print_fixed6
print_fixed6-has_newline n = pointed-has_newline 6 (n / 1000000) (n % 1000000)

pub print_fixed2-has_newline : (n : ℕ) → has 10 (print_fixed2 n) ≡ false
unfolding print_fixed2
print_fixed2-has_newline n = pointed-has_newline 2 (n / 100) (n % 100)
