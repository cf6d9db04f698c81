-- ===== src/Kms/Wrapping/Metadata.antt =====
-- Metadata comes back from its encryption.
use archivon.Prelude.{◌≡◌, refl, true, false, ok, length, String}
use archivon.Text.Trim.{Text, text_eq, trim_space, is_empty}
use archivon.Kms.Env.{Primitives, Service, contents, Documented}
use archivon.Kms.Keys.{normalize_master_key, with_material, default_provider, derive_local_key}
use archivon.Kms.Keys.Forms.{load_key_ready, derive_local_key_size}
use archivon.Kms.Wrapping.{encrypt_metadata, decrypt_metadata}

module _ (prim : Primitives) (doc : Documented prim) (s : Service)
    (material nonce plaintext aad : Text) where
  abbrev metadata_key : Text
  metadata_key = derive_local_key prim "archivon-local-metadata-v1" material

  abbrev ciphertext : Text
  ciphertext = prim.gcm_seal metadata_key nonce plaintext aad

  encrypt_metadata_lem :
      (raw : Text) (format : String)
      → text_eq s.provider default_provider ≡ true
      → is_empty (trim_space s.master_key_path) ≡ false
      → normalize_master_key prim raw ≡ ok (material, format)
      → encrypt_metadata prim s (contents raw) (ok nonce) plaintext aad ≡ ok (nonce, ciphertext)
  unfolding encrypt_metadata with_material
  encrypt_metadata_lem raw format p q n =
      rw
        (
          load_key_ready prim s raw material format p q n,
          doc.key_size metadata_key
              (derive_local_key_size prim doc "archivon-local-metadata-v1" material),
        )
        refl

  decrypt_metadata_lem :
      (raw : Text) (format : String)
      → text_eq s.provider default_provider ≡ true
      → is_empty (trim_space s.master_key_path) ≡ false
      → normalize_master_key prim raw ≡ ok (material, format)
      → length nonce ≡ 12
      → decrypt_metadata prim s (contents raw) nonce ciphertext aad ≡ ok plaintext
  unfolding decrypt_metadata with_material
  decrypt_metadata_lem raw format p q n l =
      rw
        (
          load_key_ready prim s raw material format p q n,
          doc.key_size metadata_key
              (derive_local_key_size prim doc "archivon-local-metadata-v1" material),
          doc.gcm_inverse metadata_key nonce plaintext aad
              (derive_local_key_size prim doc "archivon-local-metadata-v1" material) l,
        )
        refl

-- Metadata is encrypted, and decrypting it under the same text of authenticated data gives it back, also
-- when the key file has since changed to another form of the same key material. The service uses the
-- local provider and has a path, and the drawn nonce has twelve bytes.
pub decrypt_metadata-encrypt_metadata :
    (prim : Primitives) (doc : Documented prim) (s : Service) (material nonce plaintext aad : Text)
    (raw raw' : Text) (format format' : String)
    → text_eq s.provider default_provider ≡ true
    → is_empty (trim_space s.master_key_path) ≡ false
    → normalize_master_key prim raw ≡ ok (material, format)
    → normalize_master_key prim raw' ≡ ok (material, format')
    → length nonce ≡ 12
    → (n : Text) × (c : Text) × (encrypt_metadata prim s (contents raw) (ok nonce) plaintext aad
        ≡ ok (n, c))
      × (decrypt_metadata prim s (contents raw') n c aad ≡ ok plaintext)
decrypt_metadata-encrypt_metadata prim doc s material nonce plaintext aad raw raw' format format' p
      q n n' l =
    (
      nonce,
      ciphertext prim doc s material nonce plaintext aad,
      encrypt_metadata_lem prim doc s material nonce plaintext aad raw format p q n,
      decrypt_metadata_lem prim doc s material nonce plaintext aad raw' format' p q n' l,
    )
