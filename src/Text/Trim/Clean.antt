-- ===== src/Text/Trim/Clean.antt =====
-- Texts without white space are not changed by TrimSpace.
use mathlib.Core.List.{reverse_aux, reverse-reverse}
use archivon.Prelude.{ℕ, ◌≡◌, refl, ◌∙◌, ap, Bool, false, [], ◌∷◌, reverse, any, arith}
use archivon.Text.Trim.{Text, trim_left, trim, trim_space, is_space}

trim_left_clean : (p : ℕ → Bool) (s : Text) → any p s ≡ false → trim_left p s ≡ s
unfolding trim_left
trim_left_clean p [] h = refl
trim_left_clean p (c ∷ s) h = ground (arith, h)

any-reverse_aux :
    (p : ℕ → Bool) (s acc : Text)
    → any p s ≡ false
    → any p acc ≡ false
    → any p (reverse_aux s acc) ≡ false
any-reverse_aux p [] acc h k = k
any-reverse_aux p (c ∷ s) acc h k =
    any-reverse_aux p s (c ∷ acc) (ground (arith, h)) (ground (arith, h, k))

pub trim_clean : (p : ℕ → Bool) (s : Text) → any p s ≡ false → trim p s ≡ s
unfolding trim
trim_clean p s h =
    ap (λ t. reverse (trim_left p (reverse t))) (trim_left_clean p s h)
    ∙ ap reverse (trim_left_clean p (reverse s) (any-reverse_aux p s [] h refl))
    ∙ reverse-reverse s

pub trim_space_clean : (s : Text) → any is_space s ≡ false → trim_space s ≡ s
unfolding trim_space
trim_space_clean s h = trim_clean is_space s h
