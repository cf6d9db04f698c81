-- ===== src/Kms/Witnesses.antt =====
-- Tests of internal/kms, and the theorems of this component at inputs that meet their hypotheses.
use archivon.Prelude.{◌≡◌, refl, [], ◌∷◌, ◌++◌, ok, err, replicate}
use archivon.Text.Trim.{Text, codes, text_eq}
use archivon.Kms.Env.{WrappedDataKey, failed, not_exist, contents}
use archivon.Kms.Keys.{normalize_master_key}
use archivon.Kms.Wrapping.{wrap_data_key, unwrap_data_key, encrypt_metadata, decrypt_metadata}
use archivon.Kms.Wrapping.Unwrapping.{unwrap_data_key-wrap_data_key}
use archivon.Kms.Wrapping.Metadata.{decrypt_metadata-encrypt_metadata}
use archivon.Kms.Sealing.{seal_prefix}
use archivon.Kms.Examples.{
  example_primitives, example-Documented, example_service, hex_key, plain_key,
}

missing_test :
    wrap_data_key example_primitives example_service not_exist (ok []) (codes "key") []
    ≡ err (failed "waiting_for_key")
unfolding wrap_data_key
missing_test = refl

short_test : normalize_master_key example_primitives (codes " short ") ≡ err "master_key_too_short"
unfolding normalize_master_key
short_test = refl

unwrap_data_key-wrap_data_key_example :
    (w : WrappedDataKey) × (wrap_data_key example_primitives example_service
        (contents hex_key)
        (ok (replicate 12 0))
        (codes "data key")
        (codes "aad")
      ≡ ok w)
    × (unwrap_data_key example_primitives example_service (contents plain_key) w (codes "aad")
        ≡ ok (codes "data key"))
unfolding normalize_master_key text_eq
unwrap_data_key-wrap_data_key_example =
    unwrap_data_key-wrap_data_key example_primitives example-Documented example_service plain_key
      (replicate 12 0) (codes "data key") (codes "aad") hex_key plain_key "hex" "base64" refl refl
      refl refl refl refl

decrypt_metadata-encrypt_metadata_example :
    (n : Text) × (c : Text) × (encrypt_metadata example_primitives example_service
        (contents hex_key)
        (ok (replicate 12 0))
        (codes "Dav1-x")
        (codes "aad")
      ≡ ok (n, c))
    × (decrypt_metadata example_primitives example_service (contents plain_key) n c (codes "aad")
        ≡ ok (codes "Dav1-x"))
unfolding normalize_master_key text_eq
decrypt_metadata-encrypt_metadata_example =
    decrypt_metadata-encrypt_metadata example_primitives example-Documented example_service
      plain_key (replicate 12 0) (codes "Dav1-x") (codes "aad") hex_key plain_key "hex" "base64"
      refl refl refl refl refl

-- The seal of the byte 0 for folders, in hexadecimal text.
abbrev folder_seal : Text
folder_seal = seal_prefix ++ codes "6172636869766f6e3a6b6d732d7365616c3a76310a666f6c6465720a00"

abbrev zero_byte : Text
zero_byte = 0 ∷ []

abbrev too_large : Text
too_large = 256 ∷ []
