-- ===== src/Access/Reconcile.antt =====
-- completeRunningJobs and reconcile of internal/access. The k-th reading of a clock, in this pass,
-- gives `clock k`; a session that is opened takes the id `fresh k`.
pub mod Invariant
pub mod Completion
use archivon.Prelude.{
  ℕ, ◌+◌, Bool, ◌&&◌, Option, none, some, List, [], ◌∷◌, ltb, leb, if◌then◌else◌, length, ok, err,
}
use archivon.Store.{Db, JobRow}
use archivon.Store.Tx.{Outcome}
use archivon.Access.Env.{Env}
use archivon.Access.Queue.{runs, expire_sessions, timeout_jobs, promote_next_queued}
use archivon.Access.Progress.{Best, best_attempt_progress}
use archivon.Access.Sessions.{open_session_for_completed_job}

pub record Oracle : Type 0 where
  pub clock : ℕ → ℕ
  pub fresh : ℕ → ℕ

-- A row of the SELECT with its started_at, which is not null.
abbrev pub Started : Type 0
Started = JobRow × ℕ

-- ORDER BY started_at
unfoldable pub insert_by_start : Started → List Started → List Started
insert_by_start x [] = x ∷ []
insert_by_start x (y ∷ ys) = if leb x.1 y.1 then x ∷ y ∷ ys else y ∷ insert_by_start x ys

abbrev pub add_started : JobRow → Option ℕ → List Started → List Started
add_started j none xs = xs
add_started j (some at) xs = insert_by_start (j, at) xs

unfoldable pub running_jobs : ℕ → List JobRow → List Started
unfolding insert_by_start
running_jobs tenant [] = []
running_jobs tenant (j ∷ js) =
    let rest = running_jobs tenant js in
    if runs tenant j then add_started j j.started_at rest else rest

abbrev pub and_then : {A : Type 0} → Outcome (Unit {0}) → (Db → Outcome A) → Outcome A
and_then (ok u, d) f = f d
and_then (err e, d) f = (err e, d)

-- One round of the loop over the running jobs.
unfoldable pub complete_job : Env → Started → (now later session : ℕ) → Db → Outcome (Unit {0})
complete_job env (job, started) now later session d =
    let best =
      best_attempt_progress job.tenant job.id started job.proof_window_seconds
        job.max_proof_attempts now d.shares in
    if ltb best.work job.required_work
    then (ok tt, d)
    else open_session_for_completed_job env job best.work session later d

unfoldable pub complete_jobs : Env → Oracle → ℕ → List Started → Db → Outcome (Unit {0})
unfolding complete_job
complete_jobs env o k [] d = (ok tt, d)
complete_jobs env o k (j ∷ js) d =
    and_then (complete_job env j (o.clock k) (o.clock (k + 1)) (o.fresh k) d)
      (complete_jobs env o (k + 2) js)

-- completeRunningJobs
unfoldable pub complete_running_jobs : Env → Oracle → ℕ → Db → Outcome (Unit {0})
unfolding complete_jobs running_jobs
complete_running_jobs env o tenant d = complete_jobs env o 2 (running_jobs tenant d.jobs) d

-- reconcile. The last promotion reads the clock after all others.
unfoldable pub reconcile : Env → Oracle → (tenant last : ℕ) → Db → Outcome (Unit {0})
unfolding complete_running_jobs
reconcile env o tenant last d =
    let timed = timeout_jobs tenant (o.clock 1) (expire_sessions tenant (o.clock 0) d) in
    and_then (complete_running_jobs env o tenant timed)
      (λ e. (ok tt, promote_next_queued tenant last e))
