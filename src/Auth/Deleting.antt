-- ===== src/Auth/Deleting.antt =====
-- handleDeleteUser of internal/auth/service.go, with promoteNextQueuedAccessJobTx, and what the foreign
-- keys of the migrations do when rows go.
pub mod Promotion
pub mod Cleanup
use archivon.Prelude.{
  ℕ, ◌+◌, Bool, true, false, not, ◌&&◌, ◌||◌, Option, none, some, List, [], ◌∷◌, ◌++◌, ok, err, ltb,
  ◌==◌, if◌then◌else◌, any, count,
}
use archivon.Text.Trim.{Text}
use archivon.Text.Uuid.{is_uuid_like}
use archivon.Store.{
  Db, UserRow, UserSession, JobRow, SessionRow, ShareRow, PermissionRow, AuditRow, user_deleted,
  critical, canceled, SessionStatus, CloseReason, FailureReason,
}
use archivon.Store.Table.{update_where, delete_where, first_by}
use archivon.Store.Tx.{
  Tx, Outcome, ◌>>=◌, ◌>>◌, pure, gets, modify, require, insert_audit, transaction, access_error,
}
use archivon.Access.Queue.{is_active, is_open, runs, waits, live, start}
use archivon.Auth.Roles.{can_manage_user}
use archivon.Auth.Users.{current_user, user_by_id}

-- The subquery of promoteNextQueuedAccessJobTx: a queued job of the tenant, where no job runs and no
-- session is live.
abbrev pub promotable : ℕ → ℕ → Db → JobRow → Bool
promotable tenant now d j =
    waits tenant j && (not (any (runs tenant) d.jobs) && not (any (live tenant now) d.sessions))

abbrev pub start_next : ℕ → Db → Option JobRow → Db
start_next now d none = d
start_next now d (some next) = record d {
  jobs = update_where (λ (j : JobRow). j.id == next.id) (start now) d.jobs;
}

unfoldable pub promote_next_queued_access_job : ℕ → ℕ → Db → Db
unfolding first_by update_where
promote_next_queued_access_job tenant now d =
    start_next now d (first_by (λ (j : JobRow). j.created_at) (promotable tenant now d) d.jobs)

abbrev pub session_of : UserRow → SessionRow → Bool
session_of u s = s.tenant == u.tenant && s.user == u.id

abbrev pub job_of : UserRow → JobRow → Bool
job_of u j = j.tenant == u.tenant && j.user == u.id

abbrev pub login_of : UserRow → UserSession → Bool
login_of u s = s.tenant == u.tenant && s.user == u.id

abbrev pub right_of : UserRow → PermissionRow → Bool
right_of u p = p.tenant == u.tenant && p.user == u.id

abbrev pub active_session_of : UserRow → SessionRow → Bool
active_session_of u s = session_of u s && is_active s.status

abbrev pub open_job_of : UserRow → JobRow → Bool
open_job_of u j = job_of u j && is_open j.status

abbrev pub revoke_session : ℕ → SessionRow → SessionRow
revoke_session now s = record s {
  status = SessionStatus.revoked;
  closed_at = some now;
  close_reason = some CloseReason.user_deleted;
}

abbrev pub cancel_job : ℕ → JobRow → JobRow
cancel_job now j = record j {
  status = canceled;
  finished_at = some now;
  failure_reason = some FailureReason.user_deleted;
}

-- The two updates.
unfoldable pub close_work : UserRow → ℕ → Db → Db
unfolding update_where
close_work u now d = record d {
  sessions = update_where (active_session_of u) (revoke_session now) d.sessions;
  jobs = update_where (open_job_of u) (cancel_job now) d.jobs;
}

-- A share goes with its job (ON DELETE CASCADE).
abbrev pub share_of : UserRow → List JobRow → ShareRow → Bool
share_of u jobs s = any (λ (j : JobRow). job_of u j && j.id == s.job) jobs

abbrev pub job_gone : UserRow → List JobRow → Option ℕ → Bool
job_gone u jobs none = false
job_gone u jobs (some id) = any (λ (j : JobRow). job_of u j && j.id == id) jobs

-- The four deletes. A session that is left loses the reference to a deleted job (ON DELETE SET NULL).
unfoldable pub delete_rows : UserRow → Db → Db
unfolding delete_where update_where
delete_rows u d = record d {
  permissions = delete_where (right_of u) d.permissions;
  user_sessions = delete_where (login_of u) d.user_sessions;
  sessions =
      update_where (λ (s : SessionRow). job_gone u d.jobs s.pow_job)
        (λ (s : SessionRow). record s { pow_job = none }) (delete_where (session_of u) d.sessions);
  jobs = delete_where (job_of u) d.jobs;
  shares = delete_where (share_of u d.jobs) d.shares;
}

abbrev pub is_user : UserRow → UserRow → Bool
is_user u v = v.tenant == u.tenant && v.id == u.id

abbrev pub acts_as : UserRow → AuditRow → Bool
acts_as u a = elim a.actor [ none ↦ false | some id ↦ id == u.id ]

-- DELETE FROM users. An audit row loses the deleted actor (ON DELETE SET NULL).
unfoldable pub delete_user_row : UserRow → Db → Db
unfolding delete_where update_where
delete_user_row u d = record d {
  users = delete_where (is_user u) d.users;
  audit = update_where (acts_as u) (λ (a : AuditRow). record a { actor = none }) d.audit;
}

-- deleteUserResponse
pub record Deleted : Type 0 where
  pub user : UserRow
  pub revoked_sessions : ℕ
  pub canceled_jobs : ℕ
  pub deleted_pow_jobs : ℕ
  pub deleted_rights : ℕ

abbrev pub deleted_counts : UserRow → Db → Deleted
deleted_counts u d = record {
  user = u;
  revoked_sessions = count (active_session_of u) d.sessions;
  canceled_jobs = count (open_job_of u) d.jobs;
  deleted_pow_jobs = count (job_of u) d.jobs;
  deleted_rights = count (right_of u) d.permissions;
}

abbrev pub deleted_audit : (actor : UserRow) → Deleted → (ip : Text) → AuditRow
deleted_audit actor x ip = record {
  tenant = x.user.tenant;
  actor = some actor.id;
  event = user_deleted x.revoked_sessions x.canceled_jobs x.deleted_pow_jobs x.deleted_rights;
  target = some x.user.id;
  severity = critical;
  ip_address = ip;
}

-- Everything in the transaction but its last test.
unfoldable pub without_user : (actor target : UserRow) → (ip : Text) (now : ℕ) → Db → Db
unfolding close_work delete_rows promote_next_queued_access_job delete_user_row
without_user actor target ip now d =
    let e =
      promote_next_queued_access_job target.tenant now
        (delete_rows target (close_work target now d)) in
    delete_user_row target
      (record e { audit = e.audit ++ (deleted_audit actor (deleted_counts target d) ip ∷ []) })

unfoldable pub delete_user_tx : (actor target : UserRow) → (ip : Text) (now : ℕ) → Tx Deleted
unfolding without_user
delete_user_tx actor target ip now d =
    if ltb 0 (count (is_user target) d.users)
    then ok (deleted_counts target d, without_user actor target ip now d)
    else err (access_error 404 "user_not_found")

-- handleDeleteUser; `to_uuid` is the cast of a text to uuid
unfoldable pub delete_user :
    (to_uuid : Text → ℕ) (token target ip : Text) (now : ℕ) → Db → Outcome Deleted
unfolding current_user is_uuid_like user_by_id can_manage_user delete_user_tx transaction
delete_user to_uuid token target ip now d = elim (current_user token now d) [
  | none ↦ (err (access_error 401 "not_authenticated"), d)
  | some actor ↦
      (if not (is_uuid_like target)
        then (err (access_error 404 "user_not_found"), d)
        else elim (user_by_id (to_uuid target) d) [
          | none ↦ (err (access_error 404 "user_not_found"), d)
          | some t ↦
              (if can_manage_user actor t
                then transaction (delete_user_tx actor t ip now) d
                else (err (access_error 403 "target_not_allowed"), d))
        ])
]
