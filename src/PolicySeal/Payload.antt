-- ===== src/PolicySeal/Payload.antt =====
-- Two policies that FolderPoWPolicyPayload prints alike are the same.
use archivon.Prelude.{ℕ, ◌≡◌, false, arith, []}
use archivon.Text.Trim.{Text, codes}
use archivon.Text.Parts.{has, parts_agree, drop_prefix}
use archivon.Text.Decimal.{
  print_decimal, print_decimal_agree, print_decimal-has_no, print_fixed6_agree,
  print_fixed6-has_newline, print_fixed2_agree, print_fixed2-has_newline, print_fixed6,
  print_fixed2,
}
use archivon.Access.Env.{SealPayload}
use archivon.PolicySeal.{
  line, attempts_line, window_lines, tolerance_lines, hashrate_lines, folder_lines,
  folder_pow_policy_payload,
}

-- Two payloads print the same values.
pub record SameTerms (of_uuid : ℕ → Text) (p q : SealPayload) : Type 0 where
  pub tenant : of_uuid p.tenant ≡ of_uuid q.tenant
  pub folder : p.folder ≡ q.folder
  pub required_hashrate : p.required_hashrate ≡ q.required_hashrate
  pub tolerance : p.tolerance ≡ q.tolerance
  pub proof_window_seconds : p.proof_window_seconds ≡ q.proof_window_seconds
  pub max_proof_attempts : p.max_proof_attempts ≡ q.max_proof_attempts

lines_agree :
    (name v w x y : Text)
    → has 10 v ≡ false
    → has 10 w ≡ false
    → line name v x ≡ line name w y
    → (v ≡ w) × (x ≡ y)
lines_agree name v w x y h k e = parts_agree 10 v w x y h k (drop_prefix name _ _ e)

module _ (p q : SealPayload) where
  attempts_agree : attempts_line p ≡ attempts_line q → p.max_proof_attempts ≡ q.max_proof_attempts
  unfolding attempts_line
  attempts_agree e =
      print_decimal_agree p.max_proof_attempts q.max_proof_attempts
        (lines_agree (codes "max_proof_attempts=") (print_decimal p.max_proof_attempts)
          (print_decimal q.max_proof_attempts) [] []
          (print_decimal-has_no 10 p.max_proof_attempts (omega arith))
          (print_decimal-has_no 10 q.max_proof_attempts (omega arith)) e).0

  window_agree :
      window_lines p ≡ window_lines q
      → (p.proof_window_seconds ≡ q.proof_window_seconds) × (attempts_line p ≡ attempts_line q)
  unfolding window_lines
  window_agree e =
      let (value, rest) =
        lines_agree (codes "proof_window_seconds=") (print_decimal p.proof_window_seconds)
          (print_decimal q.proof_window_seconds) (attempts_line p) (attempts_line q)
          (print_decimal-has_no 10 p.proof_window_seconds (omega arith))
          (print_decimal-has_no 10 q.proof_window_seconds (omega arith)) e in
      (print_decimal_agree p.proof_window_seconds q.proof_window_seconds value, rest)

  tolerance_agree :
      tolerance_lines p ≡ tolerance_lines q
      → (p.tolerance ≡ q.tolerance) × (window_lines p ≡ window_lines q)
  unfolding tolerance_lines
  tolerance_agree e =
      let (value, rest) =
        lines_agree (codes "hashrate_tolerance_percent=") (print_fixed2 p.tolerance)
          (print_fixed2 q.tolerance) (window_lines p) (window_lines q)
          (print_fixed2-has_newline p.tolerance) (print_fixed2-has_newline q.tolerance) e in
      (print_fixed2_agree p.tolerance q.tolerance value, rest)

  hashrate_agree :
      hashrate_lines p ≡ hashrate_lines q
      → (p.required_hashrate ≡ q.required_hashrate) × (tolerance_lines p ≡ tolerance_lines q)
  unfolding hashrate_lines
  hashrate_agree e =
      let (value, rest) =
        lines_agree (codes "required_hashrate_ths=") (print_fixed6 p.required_hashrate)
          (print_fixed6 q.required_hashrate) (tolerance_lines p) (tolerance_lines q)
          (print_fixed6-has_newline p.required_hashrate)
          (print_fixed6-has_newline q.required_hashrate) e in
      (print_fixed6_agree p.required_hashrate q.required_hashrate value, rest)

  folder_agree :
      has 10 p.folder ≡ false
      → has 10 q.folder ≡ false
      → folder_lines p ≡ folder_lines q
      → (p.folder ≡ q.folder) × (hashrate_lines p ≡ hashrate_lines q)
  unfolding folder_lines
  folder_agree h k e =
      lines_agree (codes "folder_id=") p.folder q.folder (hashrate_lines p) (hashrate_lines q) h k e

  pub payload_agree :
      (of_uuid : ℕ → Text)
      → ((n : ℕ) → has 10 (of_uuid n) ≡ false)
      → has 10 p.folder ≡ false
      → has 10 q.folder ≡ false
      → folder_pow_policy_payload of_uuid p ≡ folder_pow_policy_payload of_uuid q
      → SameTerms of_uuid p q
  unfolding folder_pow_policy_payload
  payload_agree of_uuid one_line h k e =
      let (tenant, below) =
        lines_agree (codes "archivon:folder-pow-policy:v1\ntenant_id=") (of_uuid p.tenant)
          (of_uuid q.tenant) (folder_lines p) (folder_lines q) (one_line p.tenant)
          (one_line q.tenant) e in
      let (folder, numbers) = folder_agree h k below in
      let (hashrate, later) = hashrate_agree numbers in
      let (tolerance, last) = tolerance_agree later in
      let (window, attempts) = window_agree last in
      record {
        tenant = tenant;
        folder = folder;
        required_hashrate = hashrate;
        tolerance = tolerance;
        proof_window_seconds = window;
        max_proof_attempts = attempts_agree attempts;
      }
