-- ===== src/Kms/Env.antt =====
-- What internal/kms takes from elsewhere: the file system, base64, SHA-256, HMAC and AES-GCM, and the
-- service and its status.
use archivon.Prelude.{◌≡◌, Bool, Option, Result, String, length, All, ◌<◌, some, ok}
use archivon.Text.Trim.{Text}

-- An error by its text, or a panic.
pub data Fault : Type 0 where
  failed : String → Fault
  panicked : Fault

-- os.ReadFile of the key
pub data FileRead : Type 0 where
  contents : Text → FileRead
  not_exist no_permission read_error : FileRead

pub record Primitives : Type 0 where
  -- filepath.Clean
  pub clean : Text → Text
  -- DecodeString of StdEncoding, RawStdEncoding, URLEncoding and RawURLEncoding
  pub std : Text → Option Text
  pub raw_std : Text → Option Text
  pub url : Text → Option Text
  pub raw_url : Text → Option Text
  -- EncodeToString of RawURLEncoding
  pub encode_raw_url : Text → Text
  pub sha256 : Text → Text
  pub hmac_sha256 : (key message : Text) → Text
  -- aes.NewCipher and cipher.NewGCM, the cipher's Seal and its Open; Open panics at a nonce of another
  -- size.
  pub new_gcm : (key : Text) → Result Fault (Unit {0})
  pub gcm_seal : (key nonce plaintext aad : Text) → Text
  pub gcm_open : (key nonce ciphertext aad : Text) → Result Fault Text

-- kms.Service
pub record Service : Type 0 where
  pub has_db : Bool
  pub provider : Text
  pub master_key_path : Text
  pub key_id : Text

pub record Options : Type 0 where
  pub provider : Text
  pub master_key_path : Text
  pub key_id : Text

-- Status.State
pub data State : Type 0 where
  waiting_for_key unsupported_provider permission_denied read_failed invalid_key ready : State

-- Status, without the time of the check
pub record Status : Type 0 where
  pub provider : Text
  pub state : State
  pub available : Bool
  pub key_id : Text
  pub source : Text
  pub format : String
  pub fingerprint : Text
  pub reason : String

pub record WrappedDataKey : Type 0 where
  pub key_id : Text
  pub provider : Text
  pub algorithm : Text
  pub nonce : Text
  pub ciphertext : Text
  pub fingerprint : Text

pub record LoadedKey : Type 0 where
  pub status : Status
  pub kek : Text
  pub metadata_key : Text
  pub seal_key : Text

-- What the packages of the standard library promise.
pub record Documented (prim : Primitives) : Type 0 where
  pub sha256_size : (t : Text) → length (prim.sha256 t) ≡ 32
  pub hmac_bytes : (key message : Text) → All (λ b. b < 256) (prim.hmac_sha256 key message)
  pub base64_inverse : (t : Text) → prim.raw_url (prim.encode_raw_url t) ≡ some t
  pub key_size : (key : Text) → length key ≡ 32 → prim.new_gcm key ≡ ok tt
  pub gcm_inverse :
      (key nonce plaintext aad : Text)
      → length key ≡ 32
      → length nonce ≡ 12
      → prim.gcm_open key nonce (prim.gcm_seal key nonce plaintext aad) aad ≡ ok plaintext
