-- ===== src/Kms/Wrapping.antt =====
-- WrapDataKey, UnwrapDataKey, EncryptMetadata and DecryptMetadata. The drawn nonce, or the error of the
-- random source, is an argument.
pub mod Unwrapping
pub mod Metadata
use archivon.Prelude.{
  ℕ, Bool, true, false, not, Option, none, some, Result, ok, err, ◌>>=◌, if◌then◌else◌, String,
}
use archivon.Text.Trim.{Text, codes, text_eq, is_empty}
use archivon.Kms.Env.{
  Primitives, Service, Status, WrappedDataKey, LoadedKey, FileRead, Fault, failed,
}
use archivon.Kms.Keys.{load_key, state_name}

abbrev pub algorithm_name : Text
algorithm_name = codes "AES-256-GCM"

-- A condition that an operation needs, with the error where it fails.
abbrev pub need : Bool → String → Result Fault (Unit {0})
need true text = ok tt
need false text = err (failed text)

abbrev pub decoded : Option Text → String → Result Fault Text
decoded none text = err (failed text)
decoded (some t) text = ok t

-- Every error of Open, but not a panic, has this text.
abbrev pub renamed : String → Result Fault Text → Result Fault Text
renamed text (ok t) = ok t
renamed text (err (failed _)) = err (failed text)
renamed text (err Fault.panicked) = err Fault.panicked

module _ (prim : Primitives) (s : Service) (file : FileRead) where
  abbrev pub loaded : LoadedKey
  loaded = load_key prim s file

  -- `if !loaded.status.Available { return errors.New(loaded.status.State) }`
  abbrev pub available_key : Result Fault LoadedKey
  available_key =
      if loaded.status.available then ok loaded else err (failed (state_name loaded.status.state))

  unfoldable pub wrap_data_key :
      (nonce : Result Fault Text) (plaintext aad : Text) → Result Fault WrappedDataKey
  unfolding load_key
  wrap_data_key nonce plaintext aad = do
    _ ← need (not (is_empty plaintext)) "plaintext data key is empty"
    key ← available_key
    _ ← prim.new_gcm key.kek
    n ← nonce
    ok (record {
      key_id = key.status.key_id;
      provider = key.status.provider;
      algorithm = algorithm_name;
      nonce = prim.encode_raw_url n;
      ciphertext = prim.encode_raw_url (prim.gcm_seal key.kek n plaintext aad);
      fingerprint = key.status.fingerprint;
    })

  unfoldable pub unwrap_data_key : WrappedDataKey → (aad : Text) → Result Fault Text
  unfolding load_key text_eq
  unwrap_data_key wrapped aad = do
    key ← available_key
    _ ← need (text_eq wrapped.provider key.status.provider) "kms_provider_mismatch"
    _ ← need (text_eq wrapped.key_id key.status.key_id) "kms_key_id_mismatch"
    _ ← need (text_eq wrapped.algorithm algorithm_name) "kms_wrapped_key_algorithm_unsupported"
    nonce ← decoded (prim.raw_url wrapped.nonce) "kms_wrapped_key_nonce_invalid"
    ciphertext ← decoded (prim.raw_url wrapped.ciphertext) "kms_wrapped_key_ciphertext_invalid"
    _ ← prim.new_gcm key.kek
    renamed "kms_wrapped_key_auth_failed" (prim.gcm_open key.kek nonce ciphertext aad)

  -- the nonce and the ciphertext
  unfoldable pub encrypt_metadata :
      (nonce : Result Fault Text) (plaintext aad : Text) → Result Fault (Text × Text)
  unfolding load_key
  encrypt_metadata nonce plaintext aad = do
    key ← available_key
    _ ← prim.new_gcm key.metadata_key
    n ← nonce
    ok (n, prim.gcm_seal key.metadata_key n plaintext aad)

  unfoldable pub decrypt_metadata : (nonce ciphertext aad : Text) → Result Fault Text
  unfolding load_key
  decrypt_metadata nonce ciphertext aad = do
    key ← available_key
    _ ← prim.new_gcm key.metadata_key
    renamed "metadata_auth_failed" (prim.gcm_open key.metadata_key nonce ciphertext aad)
