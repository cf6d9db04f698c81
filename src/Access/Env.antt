-- ===== src/Access/Env.antt =====
-- What internal/access takes from elsewhere: the caller, the uuid casts of the database, the key
-- service (internal/kms), bcrypt and the random source. They are arguments of the operations.
use archivon.Prelude.{ℕ, Option, Result}
use archivon.Text.Trim.{Text}
use archivon.Store.{Role}
use archivon.Store.Tx.{Failure}
use archivon.Access.Policy.{Policy}

-- auth.User, as far as internal/access reads it.
pub record User : Type 0 where
  pub id : ℕ
  pub tenant : ℕ
  pub role : Role

-- policyseal.FolderPoWPolicyPayload: the fields that the sealed text prints. The folder is the text of
-- the request.
pub record SealPayload : Type 0 where
  pub tenant : ℕ
  pub folder : Text
  pub required_hashrate : ℕ
  pub tolerance : ℕ
  pub proof_window_seconds : ℕ
  pub max_proof_attempts : ℕ

-- kms.Service: Seal for the folder policy, and EncryptMetadata of a text under its tenant and session.
pub record Kms : Type 0 where
  pub seal : SealPayload → Result Failure Text
  pub encrypt_metadata : (plaintext : Text) (tenant session : ℕ) → Result Failure (Text × Text)

pub record Env : Type 0 where
  -- the cast of a text parameter to uuid, and of a uuid to text
  pub to_uuid : Text → ℕ
  pub of_uuid : ℕ → Text
  -- s.kms, `none` where it is nil
  pub kms : Option Kms
  -- newDAVPassword and bcrypt.GenerateFromPassword
  pub new_dav_password : Result Failure Text
  pub bcrypt : Text → Result Failure Text
  -- json.Unmarshal and json.Marshal of the policy setting
  pub unmarshal_policy : Text → Result Failure Policy
  pub marshal_policy : Policy → Result Failure Text
