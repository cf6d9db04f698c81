-- ===== src/Access/Sessions.antt =====
-- Access sessions in internal/access: openSessionForCompletedJob with assignDAVCredentialsTx, and the
-- two ways to close a session.
pub mod Opening
pub mod Outcomes
pub mod Closing
use archivon.Prelude.{
  ℕ, ◌+◌, ◌-◌, ◌*◌, ◌/◌, Bool, true, false, not, ◌&&◌, Option, none, some, List, [], ◌∷◌, ◌++◌, pos,
  ltb, leb, ◌==◌, if◌then◌else◌, count, find?, filter, Result, ok, err,
}
use archivon.Text.Trim.{Text, codes}
use archivon.Text.Uuid.{is_uuid_like}
use archivon.Store.{
  Db, JobRow, SessionRow, DavCredentials, AuditRow, JobStatus, succeeded, canceled,
  active_session_opened, SessionStatus, client_closed, admin_closed, CloseReason, minutes, info,
  warning, critical, session_closed, session_admin_closed, session_opened,
}
use archivon.Store.Table.{update_where}
use archivon.Store.Tx.{
  Failure, access_error, unique_violation, failure, Outcome, Tx, ◌>>=◌, ◌>>◌, pure, fail, gets,
  modify, require, or_fail, insert_audit, transaction, rolled_back, then_read,
}
use archivon.Access.Policy.{default_proof_window_seconds, normalize_positive_int}
use archivon.Access.Env.{Env, Kms, User}
use archivon.Access.Dav.{new_dav_credentials}
use archivon.Access.Queue.{
  is_running, holds, live, active_session_exists, close_with, cancel_queued_jobs,
  cancel_for_session, promote_next_queued,
}

-- A result that no table has a part in.
abbrev pub lift : {A : Type 0} → Result Failure A → Tx A
lift (ok a) d = ok (a, d)
lift (err e) d = err e

-- assignDAVCredentialsTx
abbrev pub with_dav : DavCredentials → SessionRow → SessionRow
with_dav credentials s = record s { dav = some credentials }

abbrev pub dav_key : (tenant session : ℕ) → SessionRow → Bool
dav_key tenant session s = s.tenant == tenant && s.id == session

unfoldable pub assign_dav_credentials : Env → (tenant session : ℕ) → Tx (Unit {0})
assign_dav_credentials env tenant session = do
  credentials ← lift (new_dav_credentials env tenant session)
  modify (λ d. record d {
    sessions = update_where (dav_key tenant session) (with_dav credentials) d.sessions;
  })

-- INSERT INTO access_sessions ... 'active', under access_sessions_one_active_per_tenant.
unfoldable pub insert_session : SessionRow → Tx (Unit {0})
insert_session s = do
  held ← gets (λ d. count (holds s.tenant) d.sessions)
  require (held == 0) unique_violation
  modify (λ d. record d { sessions = d.sessions ++ (s ∷ []) })

-- UPDATE pow_jobs SET status = 'succeeded' ... AND status = 'running'
abbrev pub running_job : (tenant id : ℕ) → JobRow → Bool
running_job tenant id j = j.tenant == tenant && (j.id == id && is_running j.status)

abbrev pub succeed : (observed now : ℕ) → JobRow → JobRow
succeed observed now j = record j {
  status = succeeded;
  observed_hashrate = some observed;
  finished_at = some now;
}

unfoldable pub succeed_job : (tenant id observed now : ℕ) → List JobRow → List JobRow
succeed_job tenant id observed now = update_where (running_job tenant id) (succeed observed now)

unfoldable pub opened_session : (job : JobRow) (session now : ℕ) → SessionRow
opened_session job session now = record {
  id = session;
  tenant = job.tenant;
  user = job.user;
  folder = job.folder;
  pow_job = some job.id;
  status = SessionStatus.active;
  opened_at = now;
  expires_at = now + minutes (normalize_positive_int (pos job.session_ttl_minutes) 30);
  closed_at = none;
  close_reason = none;
  dav = none;
}

-- validWork / float64(proofWindowSeconds)
abbrev pub observed_hashrate_of : (job : JobRow) (valid_work : ℕ) → ℕ
observed_hashrate_of job valid_work =
    valid_work / normalize_positive_int (pos job.proof_window_seconds) default_proof_window_seconds

-- The jobs with the completed one succeeded and the queued ones canceled, and how many those are.
abbrev pub settle_jobs : (job : JobRow) (observed now : ℕ) → List JobRow → List JobRow × ℕ
settle_jobs job observed now jobs =
    cancel_queued_jobs job.tenant job.id now (succeed_job job.tenant job.id observed now jobs)

-- The part of openSessionForCompletedJob that commits.
unfoldable pub open_session_tx : Env → JobRow → (valid_work session now : ℕ) → Tx (Unit {0})
unfolding assign_dav_credentials insert_session succeed_job opened_session
open_session_tx env job valid_work session now = do
  let observed = observed_hashrate_of job valid_work
  modify (λ d. record d { jobs = succeed_job job.tenant job.id observed now d.jobs })
  insert_session (opened_session job session now)
  assign_dav_credentials env job.tenant session
  counted ← gets (λ d. cancel_queued_jobs job.tenant job.id now d.jobs)
  modify (λ d. record d { jobs = counted.0 })
  insert_audit (record {
    tenant = job.tenant;
    actor = some job.user;
    event = session_opened job.id valid_work counted.1;
    target = some session;
    severity = critical;
    ip_address = [];
  })

-- The update of the other branch, in the transaction that this branch leaves without Commit.
unfoldable pub cancel_completed_job : (job : JobRow) (now : ℕ) → Tx (Unit {0})
cancel_completed_job job now = modify (λ d. record d {
  jobs = update_where (running_job job.tenant job.id) (cancel_for_session now) d.jobs;
})

-- openSessionForCompletedJob
unfoldable pub open_session_for_completed_job :
    Env → JobRow → (valid_work session now : ℕ) → Db → Outcome (Unit {0})
unfolding open_session_tx cancel_completed_job rolled_back transaction active_session_exists
open_session_for_completed_job env job valid_work session now d =
    if active_session_exists job.tenant now d
    then rolled_back (cancel_completed_job job now) d
    else transaction (open_session_tx env job valid_work session now) d

abbrev pub session_key : (tenant id : ℕ) → SessionRow → Bool
session_key tenant id s = s.tenant == tenant && s.id == id

-- closeSession of the client: the session's expires_at is not looked at.
abbrev pub closable : User → ℕ → SessionRow → Bool
closable user id s = holds user.tenant s && (s.user == user.id && s.id == id)

unfoldable pub close_session_tx : User → (id now : ℕ) (ip : Text) → Tx (Unit {0})
close_session_tx user id now ip = do
  affected ← gets (λ d. count (closable user id) d.sessions)
  modify (λ d. record d {
    sessions =
        update_where (closable user id) (close_with now SessionStatus.closed client_closed)
          d.sessions;
  })
  require (not (affected == 0)) (access_error 404 "session_not_found")
  insert_audit (record {
    tenant = user.tenant;
    actor = some user.id;
    event = session_closed client_closed;
    target = some id;
    severity = info;
    ip_address = ip;
  })
  modify (promote_next_queued user.tenant now)

unfoldable pub close_session :
    Env → User → (session_id : Text) (now : ℕ) (ip : Text) → Db → Outcome SessionRow
unfolding close_session_tx transaction
close_session env user session_id now ip d =
    if is_uuid_like session_id
    then then_read (transaction (close_session_tx user (env.to_uuid session_id) now ip) d)
        (λ e. find? (session_key user.tenant (env.to_uuid session_id)) e.sessions)
    else (err (access_error 404 "session_not_found"), d)

-- closeSessionAsAdmin: any user's session of the tenant, while it has not run out.
abbrev pub closable_as_admin : User → (id now : ℕ) → SessionRow → Bool
closable_as_admin user id now s = live user.tenant now s && s.id == id

unfoldable pub close_session_as_admin_tx : User → (id now : ℕ) (ip : Text) → Tx (Unit {0})
close_session_as_admin_tx user id now ip = do
  row ← gets (λ d. find? (closable_as_admin user id now) d.sessions)
  closed ← or_fail row (access_error 404 "session_not_found")
  modify (λ d. record d {
    sessions =
        update_where (closable_as_admin user id now)
          (close_with now SessionStatus.closed admin_closed) d.sessions;
  })
  insert_audit (record {
    tenant = user.tenant;
    actor = some user.id;
    event = session_admin_closed closed.user closed.folder;
    target = some id;
    severity = warning;
    ip_address = ip;
  })
  modify (promote_next_queued user.tenant now)

unfoldable pub close_session_as_admin :
    Env → User → (session_id : Text) (now : ℕ) (ip : Text) → Db → Outcome SessionRow
unfolding close_session_as_admin_tx transaction
close_session_as_admin env user session_id now ip d =
    if is_uuid_like session_id
    then then_read (transaction (close_session_as_admin_tx user (env.to_uuid session_id) now ip) d)
        (λ e. find? (session_key user.tenant (env.to_uuid session_id)) e.sessions)
    else (err (access_error 404 "session_not_found"), d)
