-- ===== src/Compute/Share/Proof.antt =====
-- The proof of work that an accepted share is.
use archivon.Prelude.{
  ℕ, ◌≤◌, ◌≡◌, ◌↔◌, ◌∙◌, ap, true, some, Option, ok, Result, String, arith, pos, ℤ, leb_ℤ,
}
use archivon.Text.Trim.{Text}
use archivon.Compute.Share.{
  Work, WorkSource, RunningJob, Difficulty, verify_share, build_work, target_for_difficulty,
  set_string, Verdict,
}
use archivon.Compute.Share.Target.{build_work-target}
use archivon.Compute.Share.Verdicts.{
  WellFormed, IsHeader, hash_number, valid-WellFormed, verify_share-judged, judged-valid,
  judged-accepts,
}

target_unique :
    (o : Option ℤ) (t u : ℕ) (z : ℤ)
    → o ≡ some z
    → o ≡ some (pos t)
    → leb_ℤ (pos u) z ≡ true
    → u ≤ t
target_unique o t u (pos n) e f h = ground (arith, e, f, h)
target_unique o t u (ℤ.negsuc n) e f h = ground (arith, e, f, h)

within :
    (r : Result String ℕ) (t t' u : ℕ)
    → r ≡ ok t
    → r ≡ ok t'
    → u ≤ t
    → leb_ℤ (pos u) (pos t') ≡ true
within r t t' u e f h = ground (arith, e, f, h)

-- A share of work that the gateway built is accepted exactly where the submitted texts are well-formed
-- and agree with the work, they make a block header of 80 bytes, and the number that the double hash
-- of the header is does not exceed the target of the gateway's difficulty. `sha256` may be any
-- function.
pub verify_share_iff :
    (sha256 : Text → Text) (src : WorkSource) (job : RunningJob) (extranonce1 : Text)
    (difficulty : Difficulty) (size : ℤ) (w : Work)
    (stratum_job extranonce2 ntime nonce version : Text)
    → build_work src job extranonce1 difficulty size ≡ ok w
    → ((verify_share sha256 w stratum_job extranonce2 ntime nonce version).valid ≡ true) ↔ (
        WellFormed sha256 w stratum_job extranonce2 ntime nonce version
        × ((header : Text) × (target : ℕ) × IsHeader sha256 w stratum_job extranonce2 ntime nonce
              version header
            × (target_for_difficulty difficulty ≡ ok target)
            × (hash_number sha256 w stratum_job extranonce2 ntime nonce version header ≤ target)))
verify_share_iff sha256 src job extranonce1 difficulty size w stratum_job extranonce2 ntime nonce
      version h =
    let built = build_work-target src job extranonce1 difficulty size w h in
    (
      λ valid.
          let parts = valid-WellFormed sha256 w stratum_job extranonce2 ntime nonce version valid in
          let found = judged-valid sha256 w stratum_job extranonce2 ntime nonce version parts.1 in
          (
            parts.0,
            (
              found.0,
              built.0,
              found.2,
              built.1,
              target_unique (set_string w.target_hex) built.0 _ found.1 found.3 built.2 found.4,
            ),
          ),
      λ (form, (header, target, is_header, e, le)).
          ap (λ (v : Verdict). v.valid)
            (verify_share-judged sha256 w stratum_job extranonce2 ntime nonce version form)
          ∙ judged-accepts sha256 w stratum_job extranonce2 ntime nonce version header (pos built.0)
              is_header built.2
              (within (target_for_difficulty difficulty) target built.0 _ e built.1 le),
    )
