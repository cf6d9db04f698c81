-- ===== src/Access/Jobs/Canceling.antt =====
-- What cancelJob does to the queue and to the audit trail.
use archivon.Prelude.{
  ℕ, ◌≡◌, refl, true, false, none, some, [], ◌∷◌, ◌++◌, find?, ok, err, arith, Bool-cases,
  Option-cases, inl, inr,
}
use archivon.Text.Trim.{Text}
use archivon.Text.Uuid.{is_uuid_like}
use archivon.Store.{Db, JobRow, AuditRow, JobStatus, canceled, pow_job_canceled, warning}
use archivon.Store.Table.{update_where}
use archivon.Store.Tx.{access_error, transaction, then_read-db}
use archivon.Access.Env.{Env, User}
use archivon.Access.Queue.{promote_next_queued}
use archivon.Access.Queue.Exclusive.{
  Exclusive, update_jobs-Exclusive, promote_next_queued-Exclusive,
}
use archivon.Access.Jobs.{cancelable, cancel_at, cancel_job_tx, cancel_job, job_key}

-- The audit row of a cancellation.
abbrev pub cancel_audit : User → (id : ℕ) (ip : Text) → JobStatus → AuditRow
cancel_audit user id ip previous = record {
  tenant = user.tenant;
  actor = some user.id;
  event = pow_job_canceled previous;
  target = some id;
  severity = warning;
  ip_address = ip;
}

-- The tables before the promotion.
abbrev pub canceled_db : User → (id now : ℕ) (ip : Text) → Db → Db
canceled_db user id now ip d = record d {
  jobs = update_where (cancelable user id) (cancel_at now) d.jobs;
  audit = d.audit ++ (cancel_audit user id ip canceled ∷ []);
}

cancel_missing :
    (user : User) (id now : ℕ) (ip : Text) (d : Db)
    → find? (cancelable user id) d.jobs ≡ none
    → cancel_job_tx user id now ip d ≡ err (access_error 404 "job_not_found_or_closed")
unfolding cancel_job_tx
cancel_missing user id now ip d e = ground arith

cancel_found :
    (user : User) (id now : ℕ) (ip : Text) (d : Db) (j : JobRow)
    → find? (cancelable user id) d.jobs ≡ some j
    → cancel_job_tx user id now ip d
      ≡ ok (tt, promote_next_queued user.tenant now (canceled_db user id now ip d))
unfolding cancel_job_tx
cancel_found user id now ip d j e = ground arith

canceled_db-Exclusive :
    (user : User) (id now : ℕ) (ip : Text) (d : Db)
    → Exclusive user.tenant now d
    → Exclusive user.tenant now (canceled_db user id now ip d)
canceled_db-Exclusive user id now ip d v =
    let w =
      update_jobs-Exclusive (cancelable user id) (cancel_at now) (λ j. refl) (λ j e k. ground arith)
        v in
    record {
      distinct = w.distinct;
      one_running = w.one_running;
      one_active = w.one_active;
      not_both = w.not_both;
    }

-- Both outcomes of cancelJob for an id in the form of a uuid.
abbrev pub after_cancel : User → (id now : ℕ) (ip : Text) → Db → Db
after_cancel user id now ip d = promote_next_queued user.tenant now (canceled_db user id now ip d)

cancel_job_found :
    (env : Env) (user : User) (text : Text) (now : ℕ) (ip : Text) (d : Db) (j : JobRow)
    → is_uuid_like text ≡ true
    → find? (cancelable user (env.to_uuid text)) d.jobs ≡ some j
    → (cancel_job env user text now ip d).1 ≡ after_cancel user (env.to_uuid text) now ip d
unfolding cancel_job
cancel_job_found env user text now ip d j e found = ground (
  arith,
  cancel_found user (env.to_uuid text) now ip d j found,
  then_read-db (transaction (cancel_job_tx user (env.to_uuid text) now ip) d)
      (λ f. find? (job_key user.tenant (env.to_uuid text)) f.jobs),
)

-- A job that is not the caller's, or is closed, is an error 404, and nothing changes.
pub cancel_job_missing :
    (env : Env) (user : User) (text : Text) (now : ℕ) (ip : Text) (d : Db)
    → is_uuid_like text ≡ true
    → find? (cancelable user (env.to_uuid text)) d.jobs ≡ none
    → cancel_job env user text now ip d ≡ (err (access_error 404 "job_not_found_or_closed"), d)
unfolding cancel_job
cancel_job_missing env user text now ip d e missing =
    ground (arith, cancel_missing user (env.to_uuid text) now ip d missing)

cancel_job_malformed :
    (env : Env) (user : User) (text : Text) (now : ℕ) (ip : Text) (d : Db)
    → is_uuid_like text ≡ false
    → cancel_job env user text now ip d ≡ (err (access_error 404 "job_not_found"), d)
unfolding cancel_job
cancel_job_malformed env user text now ip d e = ground arith

-- The tables after cancelJob, on each of its branches.
cancel_job_cases :
    (P : Db → Type 0) (env : Env) (user : User) (text : Text) (now : ℕ) (ip : Text) (d : Db)
    → P d
    → P (after_cancel user (env.to_uuid text) now ip d)
    → P (cancel_job env user text now ip d).1
cancel_job_cases P env user text now ip d same changed = elim (Bool-cases (is_uuid_like text)) [
  | inr e ↦ rw (cancel_job_malformed env user text now ip d e) same
  | inl e ↦ elim (Option-cases (find? (cancelable user (env.to_uuid text)) d.jobs)) [
    | inl missing ↦ rw (cancel_job_missing env user text now ip d e missing) same
    | inr (j, found) ↦ rw (cancel_job_found env user text now ip d j e found) changed
  ]
]

-- Canceling keeps the queue exclusive, whether it succeeds or not.
pub cancel_job-Exclusive :
    (env : Env) (user : User) (text : Text) (now : ℕ) (ip : Text) (d : Db)
    → Exclusive user.tenant now d
    → Exclusive user.tenant now (cancel_job env user text now ip d).1
cancel_job-Exclusive env user text now ip d v =
    cancel_job_cases (Exclusive user.tenant now) env user text now ip d v
      (promote_next_queued-Exclusive (canceled_db-Exclusive user (env.to_uuid text) now ip d v))

promote-audit : (tenant now : ℕ) (d : Db) → (promote_next_queued tenant now d).audit ≡ d.audit
unfolding promote_next_queued
promote-audit tenant now d = ground arith

-- The audit row of every successful cancellation gives 'canceled' as the previous status, whether the
-- job was queued or running: the update returns the new value of the column.
pub cancel_job_audit :
    (env : Env) (user : User) (text : Text) (now : ℕ) (ip : Text) (d : Db) (j : JobRow)
    → (cancel_job env user text now ip d).0 ≡ ok j
    → (cancel_job env user text now ip d).1.audit
      ≡ d.audit ++ (cancel_audit user (env.to_uuid text) ip canceled ∷ [])
cancel_job_audit env user text now ip d j h = elim (Bool-cases (is_uuid_like text)) [
  | inr e ↦ absurd (ground (arith, cancel_job_malformed env user text now ip d e))
  | inl e ↦ elim (Option-cases (find? (cancelable user (env.to_uuid text)) d.jobs)) [
    | inl missing ↦ absurd (ground (arith, cancel_job_missing env user text now ip d e missing))
    | inr (k, found) ↦
        rw (cancel_job_found env user text now ip d k e found)
          (promote-audit user.tenant now (canceled_db user (env.to_uuid text) now ip d))
  ]
]
