-- ===== src/Access/Sessions/Opening.antt =====
-- What openSessionForCompletedJob does on each of its branches, and that it keeps the queue exclusive.
use archivon.Prelude.{
  ℕ, ◌+◌, ◌≤◌, ◌<◌, ◌≡◌, refl, true, false, not, ◌&&◌, some, List, [], ◌∷◌, ◌++◌, inl, inr, ◌==◌,
  count, count-append, Result, ok, err, arith, Bool-cases, ◌∙◌,
}
use archivon.Store.{Db, JobRow, SessionRow, DavCredentials, AuditRow, session_opened, critical}
use archivon.Store.Table.{
  update_where, count-update_where_keep, count-update_where_mono, count-update_where_drop,
  count_disjoint, count_split,
}
use archivon.Store.Tx.{Failure, unique_violation}
use archivon.Access.Env.{Env}
use archivon.Access.Dav.{new_dav_credentials}
use archivon.Access.Policy.{normalize_positive_int}
use archivon.Access.Queue.{
  runs, waits, holds, live, active_session_exists, cancel_queued_jobs, cancel_for_session,
}
use archivon.Access.Queue.Exclusive.{Exclusive, has_id, live-le-holds, distinct-update_where}
use archivon.Access.Sessions.{
  running_job, succeed, succeed_job, opened_session, with_dav, dav_key, observed_hashrate_of,
  settle_jobs, open_session_for_completed_job,
}

-- The jobs after a session has opened for one of them.
abbrev pub jobs_after : (job : JobRow) (observed now : ℕ) → List JobRow → List JobRow
jobs_after job observed now jobs = (settle_jobs job observed now jobs).0

abbrev opened_audit : (job : JobRow) (work session now : ℕ) → List JobRow → AuditRow
opened_audit job work session now jobs = record {
  tenant = job.tenant;
  actor = some job.user;
  event = session_opened job.id work (settle_jobs job (observed_hashrate_of job work) now jobs).1;
  target = some session;
  severity = critical;
  ip_address = [];
}

-- A second session is refused, and the job that has proved its work is left running: the update to
-- 'canceled' is rolled back, since the function returns before it commits.
pub open_session_rolled_back :
    (env : Env) (job : JobRow) (work session now : ℕ) (d : Db)
    → active_session_exists job.tenant now d ≡ true
    → open_session_for_completed_job env job work session now d ≡ (ok tt, d)
unfolding open_session_for_completed_job
open_session_rolled_back env job work session now d held = ground arith

-- A session that has run out but is still marked active lets the code go on to the insert, where the
-- unique index refuses the row: the opening fails and the tables are as they were.
pub open_session_stale :
    (env : Env) (job : JobRow) (work session now : ℕ) (d : Db)
    → active_session_exists job.tenant now d ≡ false
    → 0 < count (holds job.tenant) d.sessions
    → open_session_for_completed_job env job work session now d ≡ (err unique_violation, d)
unfolding open_session_for_completed_job
open_session_stale env job work session now d free stale = ground arith

-- The tables after a session has opened.
abbrev pub opened_db :
    (job : JobRow) (work session now : ℕ) (credentials : DavCredentials) (d : Db) → Db
opened_db job work session now credentials d = record d {
  jobs = jobs_after job (observed_hashrate_of job work) now d.jobs;
  sessions =
      update_where (dav_key job.tenant session) (with_dav credentials)
        (d.sessions ++ (opened_session job session now ∷ []));
  audit = d.audit ++ (opened_audit job work session now d.jobs ∷ []);
}

pub open_session_succeeds :
    (env : Env) (job : JobRow) (work session now : ℕ) (d : Db) (c : DavCredentials)
    → count (holds job.tenant) d.sessions ≡ 0
    → new_dav_credentials env job.tenant session ≡ ok c
    → open_session_for_completed_job env job work session now d
      ≡ (ok tt, opened_db job work session now c d)
unfolding open_session_for_completed_job
open_session_succeeds env job work session now d c free e =
    ground (arith, live-le-holds job.tenant now d.sessions)

pub open_session_dav_failed :
    (env : Env) (job : JobRow) (work session now : ℕ) (d : Db) (e : Failure)
    → count (holds job.tenant) d.sessions ≡ 0
    → new_dav_credentials env job.tenant session ≡ err e
    → open_session_for_completed_job env job work session now d ≡ (err e, d)
unfolding open_session_for_completed_job
open_session_dav_failed env job work session now d e free bad =
    ground (arith, live-le-holds job.tenant now d.sessions)

-- The job that proved its work runs no more, and no other job of the tenant has started.
pub runs-jobs_after :
    (job : JobRow) (observed now : ℕ) (jobs : List JobRow)
    → count (runs job.tenant) (jobs_after job observed now jobs)
        + count (running_job job.tenant job.id) jobs
      ≤ count (runs job.tenant) jobs
unfolding cancel_queued_jobs succeed_job
runs-jobs_after job observed now jobs = omega (
  arith,
  count-update_where_drop (runs job.tenant) (running_job job.tenant job.id) (succeed observed now)
      (λ j e. ground arith) (λ j e. ground arith) jobs,
  count-update_where_mono (runs job.tenant)
      (λ (j : JobRow). waits job.tenant j && not (j.id == job.id)) (cancel_for_session now)
      (λ j e k. ground arith)
      (update_where (running_job job.tenant job.id) (succeed observed now) jobs),
)

distinct-jobs_after :
    (job : JobRow) (observed now : ℕ) (jobs : List JobRow) (i : ℕ)
    → count (has_id i) (jobs_after job observed now jobs) ≡ count (has_id i) jobs
unfolding cancel_queued_jobs succeed_job
distinct-jobs_after job observed now jobs i = omega (
  arith,
  distinct-update_where (running_job job.tenant job.id) (succeed observed now) (λ j. refl) jobs i,
  distinct-update_where (λ (j : JobRow). waits job.tenant j && not (j.id == job.id))
      (cancel_for_session now) (λ j. refl)
      (update_where (running_job job.tenant job.id) (succeed observed now) jobs) i,
)

-- No job of the tenant waits any more.
pub waits-jobs_after :
    (job : JobRow) (observed now : ℕ) (jobs : List JobRow)
    → count (has_id job.id) jobs ≤ 1
    → 0 < count (running_job job.tenant job.id) jobs
    → count (waits job.tenant) (jobs_after job observed now jobs) ≡ 0
unfolding cancel_queued_jobs succeed_job
waits-jobs_after job observed now jobs one proved =
    let here = λ (j : JobRow). waits job.tenant j && j.id == job.id in
    let others = λ (j : JobRow). waits job.tenant j && not (j.id == job.id) in
    let mine = running_job job.tenant job.id in
    let done = update_where mine (succeed observed now) jobs in
    omega (
      arith,
      count_disjoint here mine (has_id job.id) (λ j e. ground arith) (λ j e. ground arith)
          (λ j e. ground arith) jobs,
      count-update_where_mono here mine (succeed observed now) (λ j e k. ground arith) jobs,
      count_split (waits job.tenant) others here (λ j e k. ground arith) done,
      count-update_where_drop (waits job.tenant) others (cancel_for_session now)
          (λ j e. ground arith) (λ j e. ground arith) done,
    )

-- The session is live from the moment it opens, and the only one more.
live-opened :
    (job : JobRow) (session now : ℕ) (c : DavCredentials) (ss : List SessionRow)
    → count (live job.tenant now) (
        update_where
          (dav_key job.tenant session)
          (with_dav c)
          (ss ++ (opened_session job session now ∷ [])))
      ≡ count (live job.tenant now) ss + 1
unfolding opened_session normalize_positive_int
live-opened job session now c ss =
    count-update_where_keep (live job.tenant now) (dav_key job.tenant session) (with_dav c)
      (λ s. refl) _
    ∙ count-append (live job.tenant now) ss _
    ∙ ground arith

holds-opened :
    (job : JobRow) (session now : ℕ) (c : DavCredentials) (ss : List SessionRow)
    → count (holds job.tenant) (
        update_where
          (dav_key job.tenant session)
          (with_dav c)
          (ss ++ (opened_session job session now ∷ [])))
      ≡ count (holds job.tenant) ss + 1
unfolding opened_session
holds-opened job session now c ss =
    count-update_where_keep (holds job.tenant) (dav_key job.tenant session) (with_dav c) (λ s. refl)
      _
    ∙ count-append (holds job.tenant) ss _
    ∙ ground arith

-- With no active session and a running job, the opening succeeds, and then one session is live, no job
-- of the tenant runs and none waits.
pub open_session_grants :
    (env : Env) (job : JobRow) (work session now : ℕ) (d : Db) (c : DavCredentials)
    → Exclusive job.tenant now d
    → count (holds job.tenant) d.sessions ≡ 0
    → 0 < count (running_job job.tenant job.id) d.jobs
    → new_dav_credentials env job.tenant session ≡ ok c
    → let (result, after) = open_session_for_completed_job env job work session now d in
      (result ≡ ok tt)
      × (count (live job.tenant now) after.sessions ≡ 1)
      × (count (runs job.tenant) after.jobs ≡ 0)
      × (count (waits job.tenant) after.jobs ≡ 0)
open_session_grants env job work session now d c v free proved e =
    rw (open_session_succeeds env job work session now d c free e) (
      refl,
      omega (
        arith,
        live-opened job session now c d.sessions,
        live-le-holds job.tenant now d.sessions,
      ),
      omega (arith, runs-jobs_after job (observed_hashrate_of job work) now d.jobs, v.one_running),
      waits-jobs_after job (observed_hashrate_of job work) now d.jobs (v.distinct job.id) proved,
    )

-- Whatever the outcome, opening a session for a running job keeps the queue exclusive.
pub open_session-Exclusive :
    (env : Env) (job : JobRow) (work session now : ℕ) (d : Db)
    → Exclusive job.tenant now d
    → 0 < count (running_job job.tenant job.id) d.jobs
    → Exclusive job.tenant now (open_session_for_completed_job env job work session now d).1
open_session-Exclusive env job work session now d v proved =
    elim (Bool-cases (active_session_exists job.tenant now d)) [
      | inl e ↦ rw (open_session_rolled_back env job work session now d e) v
      | inr e ↦ elim (Bool-cases (count (holds job.tenant) d.sessions == 0)) [
        | inl free ↦
            by_credentials (new_dav_credentials env job.tenant session) refl (ground (arith, free))
        | inr stale ↦ rw (open_session_stale env job work session now d e (ground (arith, stale))) v
      ]
    ]
  where
    by_credentials :
        (r : Result Failure DavCredentials)
        → new_dav_credentials env job.tenant session ≡ r
        → count (holds job.tenant) d.sessions ≡ 0
        → Exclusive job.tenant now (open_session_for_completed_job env job work session now d).1
    by_credentials (err x) e free =
        rw (open_session_dav_failed env job work session now d x free e) v
    by_credentials (ok c) e free =
        rw (open_session_succeeds env job work session now d c free e) (record {
          distinct = λ i. omega (
            arith,
            distinct-jobs_after job (observed_hashrate_of job work) now d.jobs i,
            v.distinct i,
          );
          one_running = omega (
            arith,
            runs-jobs_after job (observed_hashrate_of job work) now d.jobs,
            v.one_running,
          );
          one_active = omega (arith, holds-opened job session now c d.sessions);
          not_both = inr (
              omega (
                arith,
                runs-jobs_after job (observed_hashrate_of job work) now d.jobs,
                v.one_running,
              ));
        })
