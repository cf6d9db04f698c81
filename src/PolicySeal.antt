-- ===== src/PolicySeal.antt =====
-- internal/policyseal/folder_pow.go, and internal/kms as the key service of internal/access: the seal
-- of a folder's policy, and the metadata of a session's password.
pub mod Payload
pub mod Tampering
mod Witnesses
use archivon.Prelude.{ℕ, [], ◌∷◌, ◌++◌, Result, ok, err}
use archivon.Text.Trim.{Text, codes}
use archivon.Text.Decimal.{print_decimal, print_fixed6, print_fixed2}
use archivon.Store.Tx.{Failure, failure}
use archivon.Access.Env.{Kms, SealPayload}
use archivon.Kms.Env.{Primitives, Service, FileRead, Fault, failed}
use archivon.Kms.Wrapping.{encrypt_metadata}
use archivon.Kms.Sealing.{seal}

-- FolderPoWPurpose
abbrev pub folder_pow_purpose : Text
folder_pow_purpose = codes "folder-pow-policy"

-- One line of the payload, and the rest.
abbrev pub line : (name value rest : Text) → Text
line name value rest = name ++ (value ++ (10 ∷ rest))

-- The lines of the payload from the last one up. The hash rate is a number of millionths and the
-- tolerance one of hundredths.
unfoldable pub attempts_line : SealPayload → Text
unfolding print_decimal
attempts_line p = line (codes "max_proof_attempts=") (print_decimal p.max_proof_attempts) []

unfoldable pub window_lines : SealPayload → Text
unfolding attempts_line
window_lines p =
    line (codes "proof_window_seconds=") (print_decimal p.proof_window_seconds) (attempts_line p)

unfoldable pub tolerance_lines : SealPayload → Text
unfolding print_fixed2 window_lines
tolerance_lines p =
    line (codes "hashrate_tolerance_percent=") (print_fixed2 p.tolerance) (window_lines p)

unfoldable pub hashrate_lines : SealPayload → Text
unfolding print_fixed6 tolerance_lines
hashrate_lines p =
    line (codes "required_hashrate_ths=") (print_fixed6 p.required_hashrate) (tolerance_lines p)

unfoldable pub folder_lines : SealPayload → Text
unfolding hashrate_lines
folder_lines p = line (codes "folder_id=") p.folder (hashrate_lines p)

-- FolderPoWPolicyPayload; `of_uuid` prints the tenant
unfoldable pub folder_pow_policy_payload : (of_uuid : ℕ → Text) → SealPayload → Text
unfolding folder_lines
folder_pow_policy_payload of_uuid p =
    line (codes "archivon:folder-pow-policy:v1\ntenant_id=") (of_uuid p.tenant) (folder_lines p)

-- davPasswordAAD
unfoldable pub dav_password_aad : (of_uuid : ℕ → Text) (tenant session : ℕ) → Text
dav_password_aad of_uuid tenant session =
    codes "archivon:metadata:v1:dav-password:" ++ (of_uuid tenant ++ (b':' ∷ of_uuid session))

abbrev pub to_failure : Fault → Failure
to_failure (failed text) = failure text
to_failure Fault.panicked = failure "panic"

abbrev pub or_failure : {A : Type 0} → Result Fault A → Result Failure A
or_failure (ok a) = ok a
or_failure (err e) = err (to_failure e)

-- The key service that internal/access is given.
unfoldable pub access_kms :
    Primitives → Service → FileRead → (nonce : Result Fault Text) → (of_uuid : ℕ → Text) → Kms
unfolding seal encrypt_metadata folder_pow_policy_payload dav_password_aad
access_kms prim s file nonce of_uuid = record {
  seal =
      λ p. or_failure (seal prim s file folder_pow_purpose (folder_pow_policy_payload of_uuid p));
  encrypt_metadata = λ plaintext tenant session.
      or_failure
        (encrypt_metadata prim s file nonce plaintext (dav_password_aad of_uuid tenant session));
}
