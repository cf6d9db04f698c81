-- ===== src/Access/Queue.antt =====
-- The queue of proof-of-work jobs in internal/access: which rows block a start, the promotion of the
-- oldest queued job, the expiry of sessions and the timeout of jobs. `now` is the now() of the
-- transaction.
pub mod Exclusive
pub mod Order
use archivon.Prelude.{
  ℕ, ◌+◌, ◌*◌, Bool, true, false, not, ◌&&◌, ◌||◌, Option, none, some, List, [], ◌∷◌, ltb, leb,
  ◌==◌, if◌then◌else◌, filter, count, find?,
}
use archivon.Store.{
  Db, JobRow, SessionRow, JobStatus, queued, running, succeeded, failed, canceled, timeout,
  timed_out, active_session_opened, SessionStatus, CloseReason, ttl_expired, seconds,
}
use archivon.Store.Table.{update_where, first_by}

abbrev pub is_running : JobStatus → Bool
is_running running = true
is_running _ = false

abbrev pub is_queued : JobStatus → Bool
is_queued queued = true
is_queued _ = false

-- status IN ('queued', 'running')
abbrev pub is_open : JobStatus → Bool
is_open queued = true
is_open running = true
is_open _ = false

abbrev pub is_active : SessionStatus → Bool
is_active SessionStatus.active = true
is_active _ = false

-- The rows of pow_jobs_one_running_per_tenant.
abbrev pub runs : ℕ → JobRow → Bool
runs tenant j = j.tenant == tenant && is_running j.status

abbrev pub waits : ℕ → JobRow → Bool
waits tenant j = j.tenant == tenant && is_queued j.status

-- The rows of access_sessions_one_active_per_tenant.
abbrev pub holds : ℕ → SessionRow → Bool
holds tenant s = s.tenant == tenant && is_active s.status

-- status = 'active' AND expires_at > now()
abbrev pub live : ℕ → ℕ → SessionRow → Bool
live tenant now s = holds tenant s && ltb now s.expires_at

-- canStartJobTx: no running job and no live session of the tenant.
unfoldable pub can_start_job : ℕ → ℕ → Db → Bool
can_start_job tenant now d = count (runs tenant) d.jobs + count (live tenant now) d.sessions == 0

-- activeSessionExistsTx
unfoldable pub active_session_exists : ℕ → ℕ → Db → Bool
active_session_exists tenant now d = ltb 0 (count (live tenant now) d.sessions)

abbrev pub start : ℕ → JobRow → JobRow
start now j = record j { status = running; started_at = some now }

-- UPDATE pow_jobs ... WHERE id = (SELECT ... ORDER BY created_at LIMIT 1)
unfoldable pub start_oldest : ℕ → ℕ → List JobRow → List JobRow
start_oldest tenant now jobs = elim (first_by (λ (j : JobRow). j.created_at) (waits tenant) jobs) [
  | none ↦ jobs
  | some next ↦ update_where (λ j. j.id == next.id) (start now) jobs
]

-- promoteNextQueuedTx
unfoldable pub promote_next_queued : ℕ → ℕ → Db → Db
unfolding can_start_job start_oldest
promote_next_queued tenant now d =
    if can_start_job tenant now d then record d { jobs = start_oldest tenant now d.jobs } else d

abbrev pub close_with : ℕ → SessionStatus → CloseReason → SessionRow → SessionRow
close_with now status reason s = record s {
  status = status;
  closed_at = some now;
  close_reason = some reason;
}

-- The UPDATE of expireSessions.
unfoldable pub expire_rows : (tenant now : ℕ) → List SessionRow → List SessionRow
expire_rows tenant now =
    update_where (λ s. holds tenant s && leb s.expires_at now)
      (close_with now SessionStatus.expired ttl_expired)

-- expireSessions
unfoldable pub expire_sessions : ℕ → ℕ → Db → Db
expire_sessions tenant now d = record d { sessions = expire_rows tenant now d.sessions }

-- The job's time is up: from started_at where it runs and has one, and from created_at otherwise.
abbrev pub overdue : ℕ → JobStatus → Option ℕ → ℕ → ℕ → Bool
overdue now running (some started) created limit = leb (started + seconds limit) now
overdue now running none created limit = leb (created + seconds limit) now
overdue now queued started created limit = leb (created + seconds limit) now
overdue now _ started created limit = false

abbrev pub times_out : ℕ → ℕ → JobRow → Bool
times_out tenant now j =
    j.tenant == tenant && overdue now j.status j.started_at j.created_at j.timeout_seconds

abbrev pub time_out : ℕ → JobRow → JobRow
time_out now j = record j {
  status = timeout;
  finished_at = some now;
  failure_reason = some timed_out;
}

-- timeoutJobs: the UPDATE, and the promotion in the same transaction.
unfoldable pub timeout_jobs : ℕ → ℕ → Db → Db
timeout_jobs tenant now d =
    promote_next_queued tenant now
      (record d { jobs = update_where (times_out tenant now) (time_out now) d.jobs })

abbrev pub cancel_for_session : ℕ → JobRow → JobRow
cancel_for_session now j = record j {
  status = canceled;
  finished_at = some now;
  failure_reason = some active_session_opened;
}

-- cancelQueuedJobsForActiveSessionTx: the changed jobs and RowsAffected.
unfoldable pub cancel_queued_jobs : ℕ → ℕ → ℕ → List JobRow → List JobRow × ℕ
cancel_queued_jobs tenant active_job now jobs =
    let test = λ (j : JobRow). waits tenant j && not (j.id == active_job) in
    (update_where test (cancel_for_session now) jobs, count test jobs)
