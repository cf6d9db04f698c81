-- ===== src/PolicySeal/Witnesses.antt =====
-- The theorem on tampering at an input that meets its hypotheses.
use archivon.Prelude.{◌*◌, ◌≡◌, ◌⊎◌, refl, some, [], ok, err, arith}
use archivon.Text.Trim.{Text}
use archivon.Text.Uuid.{is_uuid_like}
use archivon.Store.{Db}
use archivon.Store.Tx.{failure}
use archivon.Access.Env.{Env, SealPayload}
use archivon.Access.Policy.{one, normalize_policy}
use archivon.Access.Jobs.{create_job, can_unlock, load_policy, seal_payload, with_folder}
use archivon.Access.Examples.{
  example_env, example_user, example_policy, example_folder, example_db, eleven,
}
use archivon.Kms.Sealing.{seal}
use archivon.Kms.Sealing.Binding.{Collision, key_of, sealed}
use archivon.Kms.Examples.{example_primitives, example-Documented, example_service, example_file}
use archivon.PolicySeal.{folder_pow_purpose, folder_pow_policy_payload, access_kms}
use archivon.PolicySeal.Payload.{SameTerms}
use archivon.PolicySeal.Tampering.{tampered_policy_refused}

abbrev kms_env : Env
kms_env = record example_env {
  kms = some (access_kms example_primitives example_service example_file (ok []) (λ _. eleven));
}

-- The folder asked for twice the hash rate when it was sealed.
abbrev sealed_terms : SealPayload
sealed_terms = record {
  tenant = 1;
  folder = eleven;
  required_hashrate = 2 * one;
  tolerance = 1000;
  proof_window_seconds = 60;
  max_proof_attempts = 3;
}

abbrev stored : Text
stored =
    sealed example_primitives example_service example_file folder_pow_purpose
      (folder_pow_policy_payload (λ _. eleven) sealed_terms)

abbrev tampered : Db
tampered = example_db [] [] (some stored)

differ :
    SameTerms
      (λ _. eleven)
      (seal_payload 1 eleven
        (with_folder (normalize_policy example_policy) (example_folder (some stored))))
      sealed_terms
    → ⊥
unfolding seal_payload with_folder normalize_policy
differ same = absurd (omega (arith, same.required_hashrate))

tampered_policy_refused_example :
    (create_job kms_env example_user eleven 30 5 [] tampered
      ≡ (err (failure "folder_pow_policy_seal_mismatch"), tampered))
    ⊎ Collision example_primitives (key_of example_primitives example_service example_file)
unfolding seal load_policy can_unlock is_uuid_like
tampered_policy_refused_example =
    tampered_policy_refused example_primitives example-Documented example_service example_file
      (ok []) (λ _. eleven) kms_env example_user eleven 30 5 [] tampered
      (normalize_policy example_policy) (example_folder (some stored)) sealed_terms stored refl
      (λ n. refl) refl refl refl refl refl differ refl refl
