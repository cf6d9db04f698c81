-- ===== src/Compute/Coinbase/Layout.antt =====
-- The compact size read back, and the layout of the coinbase transaction.
use archivon.Prelude.{
  ℕ, zero, suc, ◌+◌, ◌*◌, ◌/◌, ◌%◌, ◌<◌, ◌≡◌, ap, [], ◌∷◌, ◌++◌, Option, none, some, pos, arith,
  ltb, if◌then◌else◌, ◌==◌,
}
use archivon.Text.Trim.{Text}
use archivon.Compute.Coinbase.{low_bytes, compact_size_of, compact_size}

-- How a node reads bytes whose lowest comes first: the value and the rest of the text.
abbrev with_low_byte : ℕ → Option (ℕ × Text) → Option (ℕ × Text)
with_low_byte b none = none
with_low_byte b (some (v, rest)) = some (b + 256 * v, rest)

abbrev read_bytes : ℕ → Text → Option (ℕ × Text)
read_bytes zero s = some (0, s)
read_bytes (suc k) [] = none
read_bytes (suc k) (b ∷ s) = with_low_byte b (read_bytes k s)

-- How a node reads a compact size: the first byte, or as many bytes after it as it says.
abbrev pub read_compact_size : Text → Option (ℕ × Text)
read_compact_size [] = none
read_compact_size (b ∷ s) =
    if ltb b 253
    then some (b, s)
    else read_bytes (if b == 253 then 2 else if b == 254 then 4 else 8) s

abbrev bytes_bound : ℕ → ℕ
bytes_bound zero = 1
bytes_bound (suc k) = 256 * bytes_bound k

low_byte_eq :
    {n : ℕ} {s : Text}
    → Path (Option (ℕ × Text)) (some (n % 256 + 256 * (n / 256), s)) (some (n, s))
low_byte_eq {n} {s} = ap (λ (m : ℕ). some (m, s)) (omega arith)

read_bytes-low_bytes :
    (k n : ℕ) (s : Text) → n < bytes_bound k → read_bytes k (low_bytes k n ++ s) ≡ some (n, s)
read_bytes-low_bytes zero n s h = ap (λ (m : ℕ). some (m, s)) (omega arith)
read_bytes-low_bytes (suc k) n s h =
    rw (read_bytes-low_bytes k (n / 256) s (omega arith)) low_byte_eq

-- A node that reads the size that compactSize wrote gets the size and what follows it, for every size
-- of 64 bits.
pub read_compact_size-compact_size :
    (n : ℕ) (rest : Text)
    → n < 18446744073709551616
    → read_compact_size (compact_size (pos n) ++ rest) ≡ some (n, rest)
unfolding compact_size compact_size_of
read_compact_size-compact_size n rest h = ground (
  arith,
  read_bytes-low_bytes 2 n rest,
  read_bytes-low_bytes 4 n rest,
  read_bytes-low_bytes 8 n rest,
)
