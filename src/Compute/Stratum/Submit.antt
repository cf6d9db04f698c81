-- ===== src/Compute/Stratum/Submit.antt =====
-- mining.submit in internal/compute, and the dispatch of messages to the handlers.
use archivon.Prelude.{
  ◌+◌, Bool, true, false, not, ◌&&◌, Option, none, some, [], String, ok, err, ltb, ◌==◌,
  if◌then◌else◌,
}
use archivon.Text.Trim.{Text, codes, text_eq, is_empty}
use archivon.Compute.Version.{effective_version_hex}
use archivon.Compute.Share.{RunningJob, Work, Verdict, verify_share}
use archivon.Compute.Gateway.{
  StratumState, touch_worker_share, insert_share, running_job, work_still_running,
}
use archivon.Compute.Stratum.{
  GatewayEnv, Request, Session, Handler, ◌>>◌, stop, ignoring, update_conn, result, stratum_error,
  failed_with, close_stratum_connection, send, handle_configure, handle_subscribe, param_string,
  configure, subscribe, extranonce_subscribe, suggest_difficulty, submit, unknown, Method,
}
use archivon.Compute.Stratum.Authorize.{authorize}

-- A worker that submits under another name than its own.
unfoldable pub check_worker : (worker own : Text) → Verdict → Verdict
unfolding text_eq
check_worker worker own v =
    if text_eq (if is_empty worker then own else worker) own
    then v
    else record v { valid = false; reason = "worker_mismatch" }

-- `err != nil || current.id != work.powJobID`
abbrev pub is_current : Option RunningJob → Work → Bool
is_current none w = false
is_current (some job) w = job.id == w.pow_job

abbrev pub count_invalid : Bool → StratumState → StratumState
count_invalid valid c =
    if not valid && ltb c.invalid_log_count 5
    then record c { invalid_log_count = c.invalid_log_count + 1 }
    else c

module _ (env : GatewayEnv) where
  unfoldable pub record_share : Work → (hash : Text) → Bool → String → Handler (Unit {0})
  unfolding insert_share
  record_share w hash valid reason s =
      elim (insert_share s.conn w hash valid (codes reason) env.now s.gateway.db) [
        | err e ↦ (err (failed_with e), s)
        | ok d ↦ (ok tt, record s { gateway = record s.gateway { db = d } })
      ]

  unfoldable pub touch : String → Handler (Unit {0})
  unfolding touch_worker_share
  touch reason s = (
    ok tt,
    record s {
      gateway = record s.gateway {
        workers = touch_worker_share s.conn.worker (codes reason) env.now s.gateway.workers;
      };
    },
  )

  -- `_ = s.reconciler.Reconcile(...)` with the tenant of the connection
  unfoldable pub reconcile_valid : Bool → Handler (Unit {0})
  reconcile_valid valid s = elim env.reconciler [
    | none ↦ (ok tt, s)
    | some r ↦ elim s.conn.tenant [
      | none ↦ (ok tt, s)
      | some tenant ↦ (
        ok tt,
        if valid then record s { gateway = record s.gateway { db = r tenant s.gateway.db } } else s,
      )
    ]
  ]

  unfoldable pub close_when_over : Bool → Work → Handler (Unit {0})
  unfolding work_still_running
  close_when_over valid w s =
      if valid && not (work_still_running w.pow_job s.gateway.db)
      then (err close_stratum_connection, s)
      else (ok tt, s)

  -- From the verdict on.
  unfoldable pub settle_share : Request → Work → Verdict → Handler (Unit {0})
  unfolding record_share reconcile_valid touch close_when_over send
  settle_share req w v =
      update_conn (count_invalid v.valid)
      >> (record_share w v.hash_hex v.valid v.reason
          >> (reconcile_valid v.valid
              >> (touch v.reason
                  >> (send env (result req.id v.valid) >> close_when_over v.valid w))))

  unfoldable pub judge_submission : Request → Work → (version : Text) → Session → Verdict
  unfolding verify_share check_worker
  judge_submission req w version s = check_worker (param_string req.params 0) s.conn.worker_name (
      verify_share env.sha256 w (param_string req.params 1) (param_string req.params 2)
        (param_string req.params 3) (param_string req.params 4) version)

  unfoldable pub submit_version : Request → Work → (version : Text) → Handler (Unit {0})
  unfolding send running_job judge_submission settle_share
  submit_version req w version s =
      if is_current (running_job s.gateway.db) w
      then settle_share req w (judge_submission req w version s) s
      else (ignoring (send env (result req.id false)) >> stop close_stratum_connection) s

  -- A version that may not be rolled is recorded as an invalid share.
  unfoldable pub refuse_version : Request → Work → String → Handler (Unit {0})
  unfolding record_share touch send
  refuse_version req w reason =
      ignoring (record_share w [] false reason)
      >> (ignoring (touch reason) >> send env (result req.id false))

  unfoldable pub submit_for : Request → Work → Handler (Unit {0})
  unfolding effective_version_hex submit_version refuse_version
  submit_for req w s =
      let submitted = param_string req.params 5 in
      if is_empty submitted
      then submit_version req w w.version s
      else elim (effective_version_hex w.version submitted s.conn.version_mask
          s.conn.version_rolling) [
            | err reason ↦ refuse_version req w reason s
            | ok version ↦ submit_version req w version s
          ]

  unfoldable pub submit_share : Request → Handler (Unit {0})
  unfolding send submit_for
  submit_share req s = elim s.conn.current_work [
    | none ↦ send env (stratum_error req.id 24 "worker is not authorized for active work") s
    | some w ↦
        (if s.conn.authorized
          then submit_for req w s
          else send env (stratum_error req.id 24 "worker is not authorized for active work") s)
  ]

  unfoldable pub handle_message : Request → Handler (Unit {0})
  unfolding handle_configure handle_subscribe authorize submit_share send
  handle_message req = elim req.method [
    | configure ↦ handle_configure env req
    | subscribe ↦ handle_subscribe env req
    | extranonce_subscribe ↦ send env (result req.id true)
    | suggest_difficulty ↦ send env (result req.id true)
    | Method.authorize ↦ authorize env req
    | submit ↦ submit_share req
    | unknown m ↦ send env (stratum_error req.id 21 "unknown method")
  ]
