-- ===== src/Kms/Keys/Forms.antt =====
-- The master key in its file: a hexadecimal key, and what loadKey makes of a good one.
use archivon.Prelude.{
  ℕ, ◌/◌, ◌%◌, ◌≤◌, ◌<◌, ◌≡◌, refl, true, false, none, some, [], ◌∷◌, ok, arith, ◌∙◌, ap, length,
  All, leb, String,
}
use archivon.Text.Trim.{Text, text_eq, trim_space, is_empty, after_prefix}
use archivon.Compute.Hex.{decode_string, encode_to_string, digit_char}
use archivon.Compute.Hex.Digits.{decode_string-encode_to_string}
use archivon.Kms.Env.{Primitives, Service, contents, Documented}
use archivon.Kms.Keys.{
  normalize_master_key, trimmed_key, unprefixed_key, load_key, with_material, key_prefix,
  default_provider, long_enough, derive_local_key,
}

-- The prefix has no hexadecimal digits at its second place.
no_prefix : (m : Text) → All (λ b. b < 256) m → after_prefix key_prefix (encode_to_string m) ≡ none
unfolding after_prefix encode_to_string digit_char
no_prefix [] h = refl
no_prefix (b ∷ bs) h = ground arith

at_least : (n : ℕ) → 32 ≤ n → leb 32 n ≡ true
at_least n h = ground (arith, h)

long_enough_lem : (m : Text) → 32 ≤ length m → long_enough (some m) ≡ some m
long_enough_lem m h = rw (at_least (length m) h) refl

unprefixed_key_hex :
    (prim : Primitives) (t m : Text)
    → decode_string t ≡ some m
    → 32 ≤ length m
    → unprefixed_key prim t ≡ ok (m, "hex")
unfolding unprefixed_key
unprefixed_key_hex prim t m e h = rw (unprefixed_key, e, long_enough_lem m h) refl

trimmed_key_unprefixed :
    (prim : Primitives) (c : ℕ) (t : Text)
    → after_prefix key_prefix (c ∷ t) ≡ none
    → trimmed_key prim (c ∷ t) ≡ unprefixed_key prim (c ∷ t)
unfolding trimmed_key
trimmed_key_unprefixed prim c t f = rw (f) refl

-- A key of at least 32 bytes in hexadecimal text, with white space around it, is read back.
pub normalize_master_key-encode_to_string :
    (prim : Primitives) (raw m : Text)
    → All (λ b. b < 256) m
    → 32 ≤ length m
    → trim_space raw ≡ encode_to_string m
    → normalize_master_key prim raw ≡ ok (m, "hex")
unfolding normalize_master_key encode_to_string
normalize_master_key-encode_to_string prim raw [] h k e = absurd (omega (arith, k))
normalize_master_key-encode_to_string prim raw (b ∷ bs) h k e =
    ap (trimmed_key prim) e
    ∙ trimmed_key_unprefixed prim (digit_char (b / 16)) (digit_char (b % 16) ∷ encode_to_string bs)
        (no_prefix (b ∷ bs) h)
    ∙ unprefixed_key_hex prim (encode_to_string (b ∷ bs)) (b ∷ bs)
        (decode_string-encode_to_string (b ∷ bs) h) k

-- The three keys come from the material, whatever its format was.
pub load_key_ready :
    (prim : Primitives) (s : Service) (raw material : Text) (format : String)
    → text_eq s.provider default_provider ≡ true
    → is_empty (trim_space s.master_key_path) ≡ false
    → normalize_master_key prim raw ≡ ok (material, format)
    → load_key prim s (contents raw) ≡ with_material prim s material format
unfolding load_key
load_key_ready prim s raw material format p q n = ground (arith, p, q, n)

pub derive_local_key_size :
    (prim : Primitives) (doc : Documented prim) (purpose : String) (material : Text)
    → length (derive_local_key prim purpose material) ≡ 32
unfolding derive_local_key
derive_local_key_size prim doc purpose material = doc.sha256_size _
