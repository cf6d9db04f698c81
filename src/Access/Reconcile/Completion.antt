-- ===== src/Access/Reconcile/Completion.antt =====
-- When a reconciliation opens a session, and what it leaves for the queue.
use archivon.Prelude.{
  ℕ, ◌≤◌, ◌<◌, ◌≡◌, refl, [], ◌∷◌, ltb, count, All, ok, err, arith, Bool-cases, subst, inl, inr,
  ◌⊎◌, ◌↔◌, pos,
}
use archivon.Store.{Db, JobRow, DavCredentials}
use archivon.Store.Tx.{Outcome}
use archivon.Access.Env.{Env}
use archivon.Access.Dav.{new_dav_credentials}
use archivon.Access.Policy.{normalize_positive_int, default_max_proof_attempts}
use archivon.Access.Progress.{best_attempt_progress}
use archivon.Access.Progress.Attempts.{best_attempt_reaches, HasStarted, work_in, window_of}
use archivon.Access.Queue.{runs, waits, holds, live, promote_next_queued}
use archivon.Access.Queue.Exclusive.{Exclusive}
use archivon.Access.Queue.Order.{promote_work_conserving}
use archivon.Access.Sessions.{running_job, open_session_for_completed_job}
use archivon.Access.Sessions.Opening.{open_session_grants}
use archivon.Access.Reconcile.{
  Oracle, running_jobs, and_then, complete_job, complete_jobs, complete_running_jobs, reconcile,
}
use archivon.Access.Reconcile.Invariant.{IsRunningIn, running_jobs-IsRunningIn}

-- The job has an attempt, from the first to the last allowed, that has started by `now` and whose
-- window holds the required work in valid shares.
abbrev pub HasProof : (j : JobRow) (started now : ℕ) → Db → Type 0
HasProof j started now d =
    let window = window_of j.proof_window_seconds in
    (k : ℕ) × (1 ≤ k)
    × (k ≤ normalize_positive_int (pos j.max_proof_attempts) default_max_proof_attempts)
    × HasStarted j.tenant j.id started window now d.shares k
    × (j.required_work ≤ work_in j.tenant j.id started window now d.shares k)

best_work : (j : JobRow) (started now : ℕ) → Db → ℕ
best_work j started now d =
    (best_attempt_progress j.tenant j.id started j.proof_window_seconds j.max_proof_attempts now
      d.shares).work

one_short :
    (env : Env) (o : Oracle) (j : JobRow) (started : ℕ) (d : Db)
    → best_work j started (o.clock 2) d < j.required_work
    → complete_jobs env o 2 ((j, started) ∷ []) d ≡ (ok tt, d)
unfolding best_work complete_jobs complete_job
one_short env o j started d h = ground arith

one_done :
    (env : Env) (o : Oracle) (j : JobRow) (started : ℕ) (d e : Db)
    → j.required_work ≤ best_work j started (o.clock 2) d
    → open_session_for_completed_job env j
        (best_work j started (o.clock 2) d)
        (o.fresh 2)
        (o.clock 3)
        d
      ≡ (ok tt, e)
    → complete_jobs env o 2 ((j, started) ∷ []) d ≡ (ok tt, e)
unfolding best_work complete_jobs complete_job
one_done env o j started d e h opened = ground arith

-- For the tenant's running job, with no session active and credentials at hand: with a proof of work
-- the pass opens a session, and then none of the tenant's jobs runs or waits; with no proof it changes
-- nothing.
pub completes_with_proof :
    (env : Env) (o : Oracle) (d : Db) (j : JobRow) (started : ℕ) (c : DavCredentials)
    → Exclusive j.tenant (o.clock 3) d
    → running_jobs j.tenant d.jobs ≡ (j, started) ∷ []
    → count (holds j.tenant) d.sessions ≡ 0
    → 0 < j.required_work
    → new_dav_credentials env j.tenant (o.fresh 2) ≡ ok c
    → (HasProof j started (o.clock 2) d
        → let (result, after) = complete_running_jobs env o j.tenant d in
          (result ≡ ok tt)
          × (count (live j.tenant (o.clock 3)) after.sessions ≡ 1)
          × (count (runs j.tenant) after.jobs ≡ 0)
          × (count (waits j.tenant) after.jobs ≡ 0))
      × (¬ HasProof j started (o.clock 2) d → complete_running_jobs env o j.tenant d ≡ (ok tt, d))
unfolding complete_running_jobs best_work
completes_with_proof env o d j started c v only free positive creds = (
  λ proof.
      let enough : j.required_work ≤ best_work j started (o.clock 2) d = reaches.1 proof in
      let (done, alive, idle, quiet) =
        open_session_grants env j (best_work j started (o.clock 2) d) (o.fresh 2) (o.clock 3) d c v
          free proved creds in
      let e =
        (open_session_for_completed_job env j (best_work j started (o.clock 2) d) (o.fresh 2)
          (o.clock 3) d).1 in
      rw (only, complete_running_jobs)
        (rw (one_done env o j started d e enough (ground (arith, done)))
          (refl, alive, idle, quiet)),
  λ unproved.
      rw (only, complete_running_jobs)
        (one_short env o j started d
          (elim (Bool-cases (ltb (best_work j started (o.clock 2) d) j.required_work)) [
            | inl less ↦ ground (arith, less)
            | inr more ↦ absurd (unproved (reaches.0 (ground (arith, more))))
          ])),
)
  where
    reaches :
        (j.required_work ≤ best_work j started (o.clock 2) d) ↔ HasProof j started (o.clock 2) d
    reaches =
        best_attempt_reaches j.tenant j.id started j.proof_window_seconds j.max_proof_attempts
          (o.clock 2) d.shares j.required_work positive

    proved : 0 < count (running_job j.tenant j.id) d.jobs
    proved =
        (subst (All (IsRunningIn j.tenant d.jobs)) only
          (running_jobs-IsRunningIn j.tenant d.jobs)).0.1

-- After a pass that succeeds no job of the tenant waits, or one runs, or a session is live.
pub reconcile_work_conserving :
    (env : Env) (o : Oracle) (tenant last : ℕ) (d : Db)
    → (reconcile env o tenant last d).0 ≡ ok tt
    → let e = (reconcile env o tenant last d).1 in
      (count (waits tenant) e.jobs ≡ 0)
      ⊎ ((0 < count (runs tenant) e.jobs) ⊎ (0 < count (live tenant last) e.sessions))
unfolding reconcile
reconcile_work_conserving env o tenant last d = after_promotion _
  where
    after_promotion :
        (r : Outcome (Unit {0}))
        → (and_then r (λ e. (ok tt, promote_next_queued tenant last e))).0 ≡ ok tt
        → let e = (and_then r (λ e. (ok tt, promote_next_queued tenant last e))).1 in
          (count (waits tenant) e.jobs ≡ 0)
          ⊎ ((0 < count (runs tenant) e.jobs) ⊎ (0 < count (live tenant last) e.sessions))
    after_promotion (ok u, x) h = promote_work_conserving tenant last x
    after_promotion (err f, x) h = absurd (cc)
