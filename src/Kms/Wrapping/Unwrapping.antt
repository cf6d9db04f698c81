-- ===== src/Kms/Wrapping/Unwrapping.antt =====
-- Data keys come back from their wrapping.
use archivon.Prelude.{◌≡◌, refl, true, false, ok, length, String}
use archivon.Text.Trim.{Text, text_eq, text_eq_refl, trim_space, is_empty}
use archivon.Kms.Env.{Primitives, Service, WrappedDataKey, contents, Documented}
use archivon.Kms.Keys.{normalize_master_key, with_material, default_provider, derive_local_key}
use archivon.Kms.Keys.Forms.{load_key_ready, derive_local_key_size}
use archivon.Kms.Wrapping.{wrap_data_key, unwrap_data_key, algorithm_name}

module _ (prim : Primitives) (doc : Documented prim) (s : Service)
    (material nonce plaintext aad : Text) where
  abbrev kek : Text
  kek = derive_local_key prim "archivon-local-kms-v1" material

  abbrev wrapped_key : String → WrappedDataKey
  wrapped_key format =
      let status = (with_material prim s material format).status in
      record {
        key_id = s.key_id;
        provider = s.provider;
        algorithm = algorithm_name;
        nonce = prim.encode_raw_url nonce;
        ciphertext = prim.encode_raw_url (prim.gcm_seal kek nonce plaintext aad);
        fingerprint = status.fingerprint;
      }

  wrap_data_key_lem :
      (raw : Text) (format : String)
      → text_eq s.provider default_provider ≡ true
      → is_empty (trim_space s.master_key_path) ≡ false
      → normalize_master_key prim raw ≡ ok (material, format)
      → is_empty plaintext ≡ false
      → wrap_data_key prim s (contents raw) (ok nonce) plaintext aad ≡ ok (wrapped_key format)
  unfolding wrap_data_key with_material
  wrap_data_key_lem raw format p q n e =
      rw
        (
          e,
          load_key_ready prim s raw material format p q n,
          doc.key_size kek (derive_local_key_size prim doc "archivon-local-kms-v1" material),
        )
        refl

  unwrap_data_key_lem :
      (raw : Text) (format first : String)
      → text_eq s.provider default_provider ≡ true
      → is_empty (trim_space s.master_key_path) ≡ false
      → normalize_master_key prim raw ≡ ok (material, format)
      → length nonce ≡ 12
      → unwrap_data_key prim s (contents raw) (wrapped_key first) aad ≡ ok plaintext
  unfolding unwrap_data_key with_material
  unwrap_data_key_lem raw format first p q n l =
      rw
        (
          load_key_ready prim s raw material format p q n,
          text_eq_refl s.provider,
          text_eq_refl s.key_id,
          doc.base64_inverse nonce,
          doc.base64_inverse (prim.gcm_seal kek nonce plaintext aad),
          doc.key_size kek (derive_local_key_size prim doc "archivon-local-kms-v1" material),
          doc.gcm_inverse kek nonce plaintext aad
              (derive_local_key_size prim doc "archivon-local-kms-v1" material) l,
        )
        refl

-- A data key that is not empty is wrapped, and unwrapping it under the same text of authenticated data
-- gives it back, also when the key file has since changed to another form of the same key material. The
-- service uses the local provider and has a path.
pub unwrap_data_key-wrap_data_key :
    (prim : Primitives) (doc : Documented prim) (s : Service) (material nonce plaintext aad : Text)
    (raw raw' : Text) (format format' : String)
    → text_eq s.provider default_provider ≡ true
    → is_empty (trim_space s.master_key_path) ≡ false
    → normalize_master_key prim raw ≡ ok (material, format)
    → normalize_master_key prim raw' ≡ ok (material, format')
    → is_empty plaintext ≡ false
    → length nonce ≡ 12
    → (w : WrappedDataKey) × (wrap_data_key prim s (contents raw) (ok nonce) plaintext aad ≡ ok w)
      × (unwrap_data_key prim s (contents raw') w aad ≡ ok plaintext)
unwrap_data_key-wrap_data_key prim doc s material nonce plaintext aad raw raw' format format' p q n
      n' e l =
    (
      wrapped_key prim doc s material nonce plaintext aad format,
      wrap_data_key_lem prim doc s material nonce plaintext aad raw format p q n e,
      unwrap_data_key_lem prim doc s material nonce plaintext aad raw' format' format p q n' l,
    )
