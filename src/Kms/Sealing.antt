-- ===== src/Kms/Sealing.antt =====
-- Seal and VerifySeal.
pub mod Binding
use archivon.Prelude.{
  Bool, true, false, not, List, [], ◌∷◌, ◌++◌, Result, ok, err, ◌>>=◌, if◌then◌else◌,
}
use archivon.Text.Trim.{Text, codes, text_eq, trim_space, is_empty}
use archivon.Compute.Hex.{encode_to_string}
use archivon.Kms.Env.{Primitives, Service, FileRead, Fault}
use archivon.Kms.Keys.{load_key}
use archivon.Kms.Wrapping.{available_key, need}

-- What is written to the MAC.
unfoldable pub mac_input : (purpose payload : Text) → Text
mac_input purpose payload = codes "archivon:kms-seal:v1\n" ++ (purpose ++ (10 ∷ payload))

abbrev pub seal_prefix : Text
seal_prefix = codes "kms-hmac-sha256:v1:"

module _ (prim : Primitives) (s : Service) (file : FileRead) where
  unfoldable pub seal : (purpose payload : Text) → Result Fault Text
  unfolding load_key trim_space mac_input encode_to_string
  seal purpose payload = do
    _ ← need (not (is_empty (trim_space purpose))) "kms_seal_purpose_required"
    key ← available_key prim s file
    ok (
        seal_prefix
        ++ encode_to_string
            (prim.hmac_sha256 key.seal_key (mac_input (trim_space purpose) payload)))

  unfoldable pub verify_seal : (purpose payload seal_text : Text) → Result Fault (Unit {0})
  unfolding seal text_eq trim_space
  verify_seal purpose payload seal_text = do
    expected ← seal purpose payload
    need (text_eq expected (trim_space seal_text)) "kms_seal_mismatch"
