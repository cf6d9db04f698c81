-- ===== src/Compute/Stratum/Authorize.antt =====
-- mining.authorize and one tick of workDispatchLoop in internal/compute.
use archivon.Prelude.{
  ℕ, Bool, true, false, not, ◌&&◌, ◌||◌, Option, none, some, ok, err, ◌==◌, if◌then◌else◌,
}
use archivon.Text.Trim.{Text, codes, trim_space, is_empty}
use archivon.Compute.Share.{RunningJob, Work}
use archivon.Compute.Policy.{Policy}
use archivon.Compute.Gateway.{
  StratumState, register_connection, upsert_worker, update_worker_error, running_job,
}
use archivon.Compute.Stratum.{
  GatewayEnv, Request, Handler, ◌>>◌, done, ignoring, update_conn, update_workers_of, result,
  failed_with, send, load_policy, send_work, param_string, refresh,
}

-- `!policy.Enabled || !policy.PasswordConfigured || policy.PasswordHash == ""`
abbrev pub is_open : Policy → Bool
is_open p = p.enabled && (p.password_configured && not (is_empty p.password_hash))

module _ (env : GatewayEnv) where
  -- The worker is known by its tenant and its row from here on.
  abbrev pub store_worker : (tenant worker : ℕ) → Text → StratumState → StratumState
  store_worker tenant worker name c = record c {
    tenant = some tenant;
    worker = some worker;
    worker_name = name;
    authorized = true;
  }

  abbrev pub upsert : (tenant : ℕ) → Text → Handler (Unit {0})
  upsert tenant name s =
      let (worker, rows) =
        upsert_worker env.fresh tenant name s.conn.peer env.now s.gateway.workers in
      (
        ok tt,
        record s {
          gateway = record s.gateway { workers = rows };
          conn = store_worker tenant worker name s.conn;
        },
      )

  abbrev pub register : ℕ → Handler (Unit {0})
  register tenant s =
      (ok tt, record s { gateway = register_connection tenant s.conn env.now s.gateway })

  abbrev pub first_work : Policy → Option RunningJob → Handler (Unit {0})
  first_work p none = done
  first_work p (some job) = send_work env job p false

  -- The notifications after the result, and the start of the dispatch loop.
  abbrev pub greet : Request → Policy → Option RunningJob → Handler (Unit {0})
  greet req p job =
      send env (result req.id true)
      >> ((λ s. refresh env true p s.conn s)
          >> (first_work p job >> update_conn (λ c. record c { dispatching = true })))

  unfoldable pub admit : Request → Text → Policy → Option RunningJob → Option ℕ → Handler (Unit {0})
  unfolding send upsert_worker register_connection send_work
  admit req name p job none =
      ignoring (send env (result req.id false)) >> (λ s. (err (failed_with "invalid uuid"), s))
  admit req name p job (some tenant) = upsert tenant name >> (register tenant >> greet req p job)

  abbrev pub tenant_for : Option RunningJob → Option ℕ
  tenant_for none = env.default_tenant
  tenant_for (some job) = some job.tenant

  -- A wrong password is noted at the worker of the default tenant.
  unfoldable pub refuse_password : Request → Text → Handler (Unit {0})
  unfolding send update_worker_error
  refuse_password req name =
      ignoring (send env (result req.id false))
      >> update_workers_of (λ g. elim env.default_tenant [
        | none ↦ g
        | some tenant ↦ record g {
          workers =
              update_worker_error env.fresh tenant name (codes "invalid_password") env.now
                g.workers;
        }
      ])

  unfoldable pub check_password : Request → (name password : Text) → Policy → Handler (Unit {0})
  unfolding send admit refuse_password running_job
  check_password req name password p s =
      if not (is_open p)
      then ignoring (send env (result req.id false)) s
      else if env.password_matches p.password_hash password
      then (let job = running_job s.gateway.db in admit req name p job (tenant_for job) s)
      else refuse_password req name s

  unfoldable pub authorize : Request → Handler (Unit {0})
  unfolding send check_password load_policy
  authorize req s =
      let name = param_string req.params 0 in
      if is_empty (trim_space name)
      then ignoring (send env (result req.id false)) s
      else elim (load_policy env s.gateway.db) [
        | none ↦ ignoring (send env (result req.id false)) s
        | some p ↦ check_password req name (param_string req.params 1) p s
      ]

  -- `state.currentWork.powJobID`, and the job that is sent already
  abbrev pub works_on : Option Work → RunningJob → Bool
  works_on none job = false
  works_on (some w) job = w.pow_job == job.id

  abbrev pub dispatch_job : (tenant : ℕ) → RunningJob → Handler (Unit {0})
  dispatch_job tenant job s =
      if not (job.tenant == tenant) || works_on s.conn.current_work job
      then (ok tt, s)
      else elim (load_policy env s.gateway.db) [
        | none ↦ (ok tt, s)
        | some p ↦ (if p.enabled then send_work env job p true s else (ok tt, s))
      ]

  -- What one tick does; an error ends the loop.
  unfoldable pub dispatch_tick : Handler (Unit {0})
  unfolding load_policy send_work running_job
  dispatch_tick s = if not s.conn.authorized then (ok tt, s) else elim s.conn.tenant [
    | none ↦ (ok tt, s)
    | some tenant ↦ elim (running_job s.gateway.db) [
      | none ↦ (ok tt, s)
      | some job ↦ dispatch_job tenant job s
    ]
  ]
