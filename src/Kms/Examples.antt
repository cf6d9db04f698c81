-- ===== src/Kms/Examples.antt =====
-- A concrete key service: its primitives keep the promises, but hide nothing.
use archivon.Prelude.{ℕ, ◌%◌, ◌<◌, refl, false, none, some, [], ◌∷◌, ok, map, replicate, arith, All}
use archivon.Text.Trim.{Text, codes}
use archivon.Kms.Env.{Primitives, Documented, Service, FileRead, contents}

abbrev pub example_primitives : Primitives
example_primitives = record {
  clean = λ path. path;
  std = λ t. none;
  raw_std = λ t. none;
  url = λ t. none;
  raw_url = λ t. some t;
  encode_raw_url = λ t. t;
  sha256 = λ t. replicate 32 7;
  hmac_sha256 = λ key message. map (λ b. b % 256) message;
  new_gcm = λ key. ok tt;
  gcm_seal = λ key nonce plaintext aad. plaintext;
  gcm_open = λ key nonce ciphertext aad. ok ciphertext;
}

bytes : (t : Text) → All (λ b. b < 256) (map (λ (b : ℕ). b % 256) t)
bytes [] = tt
bytes (b ∷ t) = (omega arith, bytes t)

pub example-Documented : Documented example_primitives
example-Documented = record {
  sha256_size = λ t. refl;
  hmac_bytes = λ key message. bytes message;
  base64_inverse = λ t. refl;
  key_size = λ key h. refl;
  gcm_inverse = λ key nonce plaintext aad h k. refl;
}

abbrev pub example_service : Service
example_service = record {
  has_db = false;
  provider = codes "local-file";
  master_key_path = codes "/run/secrets/key";
  key_id = codes "local-master-v1";
}

-- 32 bytes of the letter k, in hexadecimal text and as they are.
abbrev pub hex_key : Text
hex_key = codes "6b6b6b6b6b6b6b6b6b6b6b6b6b6b6b6b6b6b6b6b6b6b6b6b6b6b6b6b6b6b6b6b\n"

abbrev pub plain_key : Text
plain_key = codes "kkkkkkkkkkkkkkkkkkkkkkkkkkkkkkkk"

abbrev pub example_file : FileRead
example_file = contents hex_key
