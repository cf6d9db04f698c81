-- ===== src/Kms/Sealing/Binding.antt =====
-- What a seal says: VerifySeal takes exactly the text that Seal prints, and no other purpose or payload
-- has that text unless HMAC-SHA-256 has a collision.
use archivon.Prelude.{
  ℕ, ◌/◌, ◌%◌, ◌<◌, All, ◌≡◌, ◌≢◌, ◌⊎◌, inl, inr, refl, ap, ◌∙◌, sym, Bool, false, Option, some, [],
  ◌∷◌, ◌++◌, ok, arith, any, Bool-cases,
}
use archivon.Text.Trim.{Text, text_eq, text_eq_iff, trim_space, is_empty, is_space, codes}
use archivon.Text.Trim.Clean.{trim_space_clean}
use archivon.Text.Parts.{has, parts_agree, drop_prefix, any-append}
use archivon.Compute.Hex.{encode_to_string, decode_string, digit_char}
use archivon.Compute.Hex.Digits.{decode_string-encode_to_string}
use archivon.Kms.Env.{Primitives, Service, FileRead, Documented}
use archivon.Kms.Wrapping.{loaded}
use archivon.Kms.Sealing.{mac_input, seal, seal_prefix}

abbrev pub has_newline : Text → Bool
has_newline p = has 10 p

mac_input_agree :
    (p q x y : Text)
    → has_newline p ≡ false
    → has_newline q ≡ false
    → mac_input p x ≡ mac_input q y
    → (p ≡ q) × (x ≡ y)
unfolding mac_input
mac_input_agree p q x y h k e =
    parts_agree 10 p q x y h k (drop_prefix (codes "archivon:kms-seal:v1\n") _ _ e)

-- Two messages with one code under a key.
pub record Collision (prim : Primitives) (key : Text) : Type 0 where
  pub first : Text
  pub second : Text
  pub different : first ≢ second
  pub same_code : prim.hmac_sha256 key first ≡ prim.hmac_sha256 key second

some_agree : (a b : Text) → Path (Option Text) (some a) (some b) → a ≡ b
some_agree a b e = cc

encode_to_string_agree :
    (prim : Primitives) (doc : Documented prim) (key a b : Text)
    → encode_to_string (prim.hmac_sha256 key a) ≡ encode_to_string (prim.hmac_sha256 key b)
    → prim.hmac_sha256 key a ≡ prim.hmac_sha256 key b
encode_to_string_agree prim doc key a b e = some_agree _ _ (
    sym (decode_string-encode_to_string (prim.hmac_sha256 key a) (doc.hmac_bytes key a))
    ∙ ap decode_string e
    ∙ decode_string-encode_to_string (prim.hmac_sha256 key b) (doc.hmac_bytes key b))

module _ (prim : Primitives) (s : Service) (file : FileRead) where
  abbrev pub key_of : Text
  key_of = (loaded prim s file).seal_key

  -- The text of a seal.
  abbrev pub sealed : (purpose payload : Text) → Text
  sealed purpose payload =
      seal_prefix
      ++ encode_to_string (prim.hmac_sha256 key_of (mac_input (trim_space purpose) payload))

  pub seal_found :
      (purpose payload t : Text)
      → seal prim s file purpose payload ≡ ok t
      → t ≡ sealed purpose payload
  unfolding seal
  seal_found purpose payload t e = elim (Bool-cases (is_empty (trim_space purpose))) [
    | inl f ↦ absurd (ground (arith, e, f))
    | inr f ↦ elim (Bool-cases (loaded prim s file).status.available) [
      | inr g ↦ absurd (ground (arith, e, f, g))
      | inl g ↦ ground (arith, e, f, g)
    ]
  ]

-- The first text that a seal was given for, where another is taken for it too.
pub messages_agree :
    (prim : Primitives) (doc : Documented prim) (key p q x y : Text)
    → has_newline p ≡ false
    → has_newline q ≡ false
    → seal_prefix ++ encode_to_string (prim.hmac_sha256 key (mac_input p x))
      ≡ seal_prefix ++ encode_to_string (prim.hmac_sha256 key (mac_input q y))
    → ((p ≡ q) × (x ≡ y)) ⊎ Collision prim key
messages_agree prim doc key p q x y h k e =
    let same =
      encode_to_string_agree prim doc key (mac_input p x) (mac_input q y)
        (drop_prefix seal_prefix _ _ e) in
    elim (Bool-cases (text_eq (mac_input p x) (mac_input q y))) [
      | inl f ↦
          inl (mac_input_agree p q x y h k ((text_eq_iff (mac_input p x) (mac_input q y)).0 f))
      | inr f ↦ inr (record {
        first = mac_input p x;
        second = mac_input q y;
        different = λ g. absurd (differ (mac_input p x) (mac_input q y) f g);
        same_code = same;
      })
    ]
  where
    differ : (a b : Text) → text_eq a b ≡ false → a ≢ b
    differ a b f g = ground (arith, f, (text_eq_iff a b).1 g)

-- The letters and figures of hexadecimal text are not white space.
is_space-digit_char : (v : ℕ) → v < 16 → is_space (digit_char v) ≡ false
unfolding is_space digit_char
is_space-digit_char v h = ground arith

is_space-encode_to_string :
    (bytes : Text) → All (λ b. b < 256) bytes → any is_space (encode_to_string bytes) ≡ false
unfolding encode_to_string
is_space-encode_to_string [] h = refl
is_space-encode_to_string (b ∷ bs) (h, hs) =
    rw
      (
        is_space-digit_char (b / 16) (omega arith),
        is_space-digit_char (b % 16) (omega arith),
        is_space-encode_to_string bs hs,
      )
      refl

is_space-seal_prefix : any is_space seal_prefix ≡ false
unfolding is_space
is_space-seal_prefix = refl

-- A seal has no white space around it.
pub trim_space-sealed :
    (prim : Primitives) (doc : Documented prim) (s : Service) (file : FileRead) (p x : Text)
    → trim_space (sealed prim s file p x) ≡ sealed prim s file p x
trim_space-sealed prim doc s file p x = trim_space_clean (sealed prim s file p x) (
    any-append is_space seal_prefix (encode_to_string code) is_space-seal_prefix
      (is_space-encode_to_string code (doc.hmac_bytes _ _)))
  where
    code : Text
    code = prim.hmac_sha256 (key_of prim s file) (mac_input (trim_space p) x)
