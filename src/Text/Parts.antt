-- ===== src/Text/Parts.antt =====
-- Texts that are put together from parts with a byte between them can be taken apart.
use archivon.Prelude.{ℕ, ◌≡◌, refl, false, [], ◌∷◌, ◌++◌, any, ◌==◌, arith, Bool}
use archivon.Text.Trim.{Text}

abbrev pub has : ℕ → Text → Bool
has sep s = any (λ c. c == sep) s

-- A part without the separator ends at the first one.
pub parts_agree :
    (sep : ℕ) (p q x y : Text)
    → has sep p ≡ false
    → has sep q ≡ false
    → p ++ (sep ∷ x) ≡ q ++ (sep ∷ y)
    → (p ≡ q) × (x ≡ y)
parts_agree sep [] [] x y h k e = (refl, cc)
parts_agree sep [] (d ∷ q) x y h k e = absurd (ground (arith, k, e))
parts_agree sep (c ∷ p) [] x y h k e = absurd (ground (arith, h, e))
parts_agree sep (c ∷ p) (d ∷ q) x y h k e =
    let (same, rest) = parts_agree sep p q x y (ground (arith, h)) (ground (arith, k)) cc in
    (cc, rest)

pub drop_prefix : (s t u : Text) → s ++ t ≡ s ++ u → t ≡ u
drop_prefix [] t u e = e
drop_prefix (c ∷ s) t u e = drop_prefix s t u cc

pub any-append :
    (p : ℕ → Bool) (s t : Text) → any p s ≡ false → any p t ≡ false → any p (s ++ t) ≡ false
any-append p [] t h k = k
any-append p (c ∷ s) t h k = ground (arith, h, any-append p s t (ground (arith, h)) k)
