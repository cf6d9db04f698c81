-- ===== src/Compute/Witnesses.antt =====
-- Tests of internal/compute on the gateway of Compute/Examples, and the theorems of this component at
-- inputs that meet their hypotheses.
use archivon.Prelude.{
  ℕ, ◌<◌, ◌≡◌, ◌≤◌, ◌↔◌, ◌⊎◌, refl, Bool, true, none, some, [], ◌∷◌, ◌++◌, ok, pos, arith, count,
  ltb, ◌&&◌, if◌then◌else◌,
}
use archivon.Text.Trim.{Text, codes, text_eq, trim_space, to_lower}
use archivon.Store.{ShareRow, seconds}
use archivon.Access.Examples.{busy-Exclusive, example_env}
use archivon.Compute.Hex.{hex_len, parse_uint32, decode_string, reverse_hex_words}
use archivon.Compute.Version.{effective_version_hex, bit, mask_or_default}
use archivon.Compute.Version.Mask.{effective_version_hex-bits}
use archivon.Compute.Share.{build_work, work_for, verify_share, target_for_difficulty}
use archivon.Compute.Share.Verdicts.{WellFormed, IsHeader, hash_number}
use archivon.Compute.Share.Proof.{verify_share_iff}
use archivon.Compute.Policy.{Policy}
use archivon.Compute.Coinbase.{compact_size}
use archivon.Compute.Coinbase.Layout.{read_compact_size, read_compact_size-compact_size}
use archivon.Compute.Gateway.{Gateway, active_connections, has_active_connection, running_job}
use archivon.Compute.Gateway.Counting.{has_active_connection-active_connections}
use archivon.Compute.Stratum.{Request, Method, text, load_policy, param_string}
use archivon.Compute.Stratum.Authorize.{authorize, is_open}
use archivon.Compute.Stratum.Submit.{submit_share}
use archivon.Compute.Stratum.Trust.{submit_share-Recorded, Recorded}
use archivon.Compute.Stratum.Exclusive.{submit_share-Exclusive}
use archivon.Compute.Stratum.Password.{authorize_password}
use archivon.Access.Queue.Exclusive.{Exclusive}
use archivon.Compute.Hex.Reversal.{IsTurned, reverse_hex_words-IsTurned}
use archivon.Compute.Examples.{
  oracle, source, difficulty, job, extranonce1, work, env, connection, gateway, session, stratum_id,
  submission,
}

abbrev valid_share : ShareRow → Bool
valid_share r = r.is_valid

-- The worker has another connection open.
abbrev two_rigs : Gateway
two_rigs = gateway (record { tenant = 1; worker_name = codes "rig"; ids = codes "c0" ∷ [] } ∷ [])

abbrev authorization : Request
authorization = record {
  id = codes "2";
  method = Method.authorize;
  params = text (codes "rig") ∷ text (codes "hash") ∷ [];
}

build_work_test : build_work source job extranonce1 difficulty (pos 4) ≡ ok work
unfolding build_work
build_work_test = refl

verify_share_test :
    (verify_share env.sha256 work stratum_id
      (codes "00000001")
      (codes "6553f100")
      (codes "00000000")
      work.version).valid
    ≡ true
unfolding verify_share text_eq hex_len work_for to_lower trim_space
    archivon.Compute.Coinbase.coinbase_head
verify_share_test = refl

submit_share_test :
    count valid_share (submit_share env submission (session (some work))).1.gateway.db.shares ≡ 2
unfolding submit_share running_job archivon.Compute.Stratum.param_string_of work_for
    archivon.Compute.Coinbase.coinbase_head archivon.Access.Reconcile.reconcile
    archivon.Access.Queue.timeout_jobs archivon.Access.Queue.promote_next_queued
    archivon.Access.Queue.expire_sessions archivon.Access.Queue.expire_rows
    archivon.Access.Progress.best_attempt_progress archivon.Access.Policy.normalize_positive_int
    archivon.Access.Progress.valid_share_progress
    archivon.Access.Sessions.open_session_for_completed_job archivon.Access.Dav.new_dav_credentials
    archivon.Access.Queue.cancel_queued_jobs
submit_share_test = refl

verify_share_iff_example :
    ((verify_share env.sha256 work stratum_id
        (codes "00000001")
        (codes "6553f100")
        (codes "00000000")
        work.version).valid
      ≡ true)
    ↔ (WellFormed env.sha256 work stratum_id
          (codes "00000001")
          (codes "6553f100")
          (codes "00000000")
          work.version
        × ((header : Text) × (target : ℕ) × IsHeader env.sha256 work stratum_id
              (codes "00000001")
              (codes "6553f100")
              (codes "00000000")
              work.version
              header
            × (target_for_difficulty difficulty ≡ ok target)
            × (hash_number env.sha256 work stratum_id
                  (codes "00000001")
                  (codes "6553f100")
                  (codes "00000000")
                  work.version
                  header
                ≤ target)))
verify_share_iff_example =
    verify_share_iff env.sha256 source job extranonce1 difficulty (pos 4) work stratum_id
      (codes "00000001") (codes "6553f100") (codes "00000000") work.version build_work_test

submit_share-Recorded_example :
    ((submit_share env submission (session (some work))).1.gateway.db
      ≡ (session (some work)).gateway.db)
    ⊎ (((session (some work)).conn.authorized ≡ true)
        × Recorded env
            (session (some work))
            submission
            1
            3
            (submit_share env submission (session (some work))).1.gateway.db)
submit_share-Recorded_example =
    submit_share-Recorded env submission (session (some work)) 1 3 refl refl

submit_share-Exclusive_example :
    Exclusive 1 (seconds 2) (submit_share env submission (session (some work))).1.gateway.db
submit_share-Exclusive_example =
    submit_share-Exclusive env example_env oracle (seconds 2) submission (session (some work)) 1 3
      refl (omega arith) (omega arith) refl refl (busy-Exclusive (seconds 2))

authorize_password_example :
    ((authorize env authorization (session none)).1.conn ≡ connection none)
    ⊎ ((p : Policy) × (load_policy env (gateway []).db ≡ some p)
        × ((is_open p && env.password_matches p.password_hash (param_string authorization.params 1))
            ≡ true))
authorize_password_example = authorize_password env authorization (session none)

effective_version_hex-bits_example :
    (version : Text) × (v : ℕ) × (effective_version_hex
        (codes "20000000")
        (codes "20C00001")
        (codes "00c00000")
        true
      ≡ ok version)
    × (parse_uint32 version ≡ some v)
    × ((i : ℕ) → i < 32 → bit i v ≡ (if bit i 12582912 then bit i 549453825 else bit i 536870912))
unfolding hex_len parse_uint32 mask_or_default text_eq to_lower trim_space
effective_version_hex-bits_example =
    effective_version_hex-bits (codes "20000000") (codes "20C00001") (codes "00c00000") 536870912
      549453825 12582912 refl refl refl refl refl

read_compact_size-compact_size_example :
    read_compact_size (compact_size (pos 70000) ++ (7 ∷ [])) ≡ some (70000, 7 ∷ [])
read_compact_size-compact_size_example = read_compact_size-compact_size 70000 (7 ∷ []) (omega arith)

has_active_connection-active_connections_example :
    has_active_connection two_rigs.connections ≡ ltb 0 (active_connections two_rigs.connections)
has_active_connection-active_connections_example =
    has_active_connection-active_connections two_rigs.connections

reverse_hex_words-IsTurned_example :
    (t : Text) × (reverse_hex_words (codes "0102030405060708") ≡ some t)
    × IsTurned (1 ∷ 2 ∷ 3 ∷ 4 ∷ 5 ∷ 6 ∷ 7 ∷ 8 ∷ []) t
unfolding trim_space to_lower decode_string
reverse_hex_words-IsTurned_example =
    reverse_hex_words-IsTurned (codes "0102030405060708") (1 ∷ 2 ∷ 3 ∷ 4 ∷ 5 ∷ 6 ∷ 7 ∷ 8 ∷ []) refl
      refl
