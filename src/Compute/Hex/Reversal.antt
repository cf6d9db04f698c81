-- ===== src/Compute/Hex/Reversal.antt =====
-- Byte order: where each byte goes when a text of words is turned word by word.
use archivon.Prelude.{
  ℕ, zero, suc, ◌+◌, ◌-◌, ◌*◌, ◌/◌, ◌%◌, ◌≡◌, refl, ap, ◌∙◌, some, [], ◌∷◌, arith, length,
  get_elem?,
}
use archivon.Text.Trim.{Text, trim_space, to_lower}
use archivon.Compute.Hex.{decode_string, swap_words, reverse_hex_words}

-- `t` has the bytes of `s`: in every word of four, byte 3 comes first and byte 0 last.
abbrev pub IsTurned : (s t : Text) → Type 0
IsTurned s t =
    (length t ≡ length s) × ((k : ℕ) → get_elem? t k ≡ get_elem? s (k / 4 * 4 + (3 - k % 4)))

IsTurned-cons :
    (a b c d : ℕ) (s t : Text)
    → IsTurned s t
    → (k : ℕ)
    → get_elem? (d ∷ c ∷ b ∷ a ∷ t) k ≡ get_elem? (a ∷ b ∷ c ∷ d ∷ s) (k / 4 * 4 + (3 - k % 4))
IsTurned-cons a b c d s t h zero = refl
IsTurned-cons a b c d s t h (suc zero) = refl
IsTurned-cons a b c d s t h (suc (suc zero)) = refl
IsTurned-cons a b c d s t h (suc (suc (suc zero))) = refl
IsTurned-cons a b c d s t h (suc (suc (suc (suc k)))) =
    let at : suc (suc (suc (suc (k / 4 * 4 + (3 - k % 4)))))
        ≡ (suc (suc (suc (suc k)))) / 4 * 4 + (3 - (suc (suc (suc (suc k)))) % 4) =
      omega arith in
    h.1 k ∙ ap (get_elem? (a ∷ b ∷ c ∷ d ∷ s)) at

swap_words-IsTurned :
    (s : Text) → length s % 4 ≡ 0 → (t : Text) × (swap_words s ≡ some t) × IsTurned s t
unfolding swap_words
swap_words-IsTurned [] h = ([], refl, (refl, λ k. refl))
swap_words-IsTurned (a ∷ b ∷ c ∷ d ∷ s) h =
    let (t, e, turned) = swap_words-IsTurned s (omega (arith, h)) in
    (d ∷ c ∷ b ∷ a ∷ t, rw e refl, (omega (arith, turned.0), IsTurned-cons a b c d s t turned))
swap_words-IsTurned (a ∷ []) h = absurd (omega (arith, h))
swap_words-IsTurned (a ∷ b ∷ []) h = absurd (omega (arith, h))
swap_words-IsTurned (a ∷ b ∷ c ∷ []) h = absurd (omega (arith, h))

-- A hexadecimal text of whole words is turned word by word: the result has as many bytes, and byte `k`
-- of it is byte 3 - k % 4 of the word that byte `k` stands in.
pub reverse_hex_words-IsTurned :
    (value raw : Text)
    → decode_string (to_lower (trim_space value)) ≡ some raw
    → length raw % 4 ≡ 0
    → (t : Text) × (reverse_hex_words value ≡ some t) × IsTurned raw t
unfolding reverse_hex_words
reverse_hex_words-IsTurned value raw e h =
    let (t, f, turned) = swap_words-IsTurned raw h in (t, ground (arith, e, f), turned)
