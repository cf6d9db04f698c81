-- ===== src/Access/Reconcile/Invariant.antt =====
-- reconcile keeps the queue of its tenant exclusive, whatever fails on the way.
use archivon.Prelude.{
  ℕ, suc, ◌≤◌, ◌<◌, ◌≡◌, refl, Option, none, some, List, [], ◌∷◌, ltb, leb, count, length, All, ok,
  err, arith, Bool-cases, subst, sym, inl, inr,
}
use archivon.Store.{Db, JobRow}
use archivon.Store.Tx.{Outcome}
use archivon.Access.Env.{Env}
use archivon.Access.Progress.{best_attempt_progress}
use archivon.Access.Queue.{runs, expire_sessions, timeout_jobs, promote_next_queued}
use archivon.Access.Queue.Exclusive.{
  Exclusive, later-Exclusive, expire_sessions-Exclusive, timeout_jobs-Exclusive,
  promote_next_queued-Exclusive,
}
use archivon.Access.Sessions.{running_job, open_session_for_completed_job}
use archivon.Access.Sessions.Opening.{open_session-Exclusive}
use archivon.Access.Reconcile.{
  Oracle, Started, insert_by_start, running_jobs, add_started, and_then, complete_job,
  complete_jobs, complete_running_jobs, reconcile,
}

-- A listed job is the tenant's, and runs in the table.
abbrev pub IsRunningIn : ℕ → List JobRow → Started → Type 0
IsRunningIn tenant jobs x = (x.0.tenant ≡ tenant) × (0 < count (running_job tenant x.0.id) jobs)

length-insert_by_start :
    (x : Started) (xs : List Started) → length (insert_by_start x xs) ≡ suc (length xs)
unfolding insert_by_start
length-insert_by_start x [] = refl
length-insert_by_start x (y ∷ ys) = ground (arith, length-insert_by_start x ys)

All-insert_by_start :
    (P : Started → Type 0) (x : Started) (xs : List Started)
    → P x
    → All P xs
    → All P (insert_by_start x xs)
unfolding insert_by_start
All-insert_by_start P x [] h v = (h, tt)
All-insert_by_start P x (y ∷ ys) h v = elim (Bool-cases (leb x.1 y.1)) [
  | inl e ↦ rw (e, insert_by_start) (h, v)
  | inr e ↦ rw (e, insert_by_start) (v.0, All-insert_by_start P x ys h v.1)
]

length-add_started :
    (j : JobRow) (o : Option ℕ) (xs : List Started) → length (add_started j o xs) ≤ suc (length xs)
length-add_started j none xs = omega arith
length-add_started j (some at) xs = omega (arith, length-insert_by_start (j, at) xs)

-- The list has no more entries than the tenant has running jobs.
pub length-running_jobs :
    (tenant : ℕ) (jobs : List JobRow) → length (running_jobs tenant jobs) ≤ count (runs tenant) jobs
unfolding running_jobs
length-running_jobs tenant [] = omega arith
length-running_jobs tenant (j ∷ js) = ground (
  arith,
  length-running_jobs tenant js,
  length-add_started j j.started_at (running_jobs tenant js),
)

All-weaken :
    (P Q : Started → Type 0)
    → ((x : Started) → P x → Q x)
    → (xs : List Started) → All P xs
    → All Q xs
All-weaken P Q h [] v = tt
All-weaken P Q h (x ∷ xs) v = (h x v.0, All-weaken P Q h xs v.1)

All-add_started :
    (P : Started → Type 0) (j : JobRow) (o : Option ℕ) (xs : List Started)
    → ((at : ℕ) → P (j, at))
    → All P xs
    → All P (add_started j o xs)
All-add_started P j none xs h v = v
All-add_started P j (some at) xs h v = All-insert_by_start P (j, at) xs (h at) v

IsRunningIn-cons :
    (tenant : ℕ) (j : JobRow) (js : List JobRow) (x : Started)
    → IsRunningIn tenant js x
    → IsRunningIn tenant (j ∷ js) x
IsRunningIn-cons tenant j js x h = (h.0, ground (arith, h.1))

pub running_jobs-IsRunningIn :
    (tenant : ℕ) (jobs : List JobRow) → All (IsRunningIn tenant jobs) (running_jobs tenant jobs)
unfolding running_jobs
running_jobs-IsRunningIn tenant [] = tt
running_jobs-IsRunningIn tenant (j ∷ js) = elim (Bool-cases (runs tenant j)) [
  | inl e ↦
      rw (e, running_jobs)
        (All-add_started (IsRunningIn tenant (j ∷ js)) j j.started_at (running_jobs tenant js)
          (λ at. (ground (arith, e), ground (arith, e)))
          (All-weaken (IsRunningIn tenant js) (IsRunningIn tenant (j ∷ js))
            (IsRunningIn-cons tenant j js) (running_jobs tenant js)
            (running_jobs-IsRunningIn tenant js)))
  | inr e ↦
      rw (e, running_jobs)
        (All-weaken (IsRunningIn tenant js) (IsRunningIn tenant (j ∷ js))
          (IsRunningIn-cons tenant j js) (running_jobs tenant js)
          (running_jobs-IsRunningIn tenant js))
]

complete_job-Exclusive :
    (env : Env) (tenant : ℕ) (x : Started) (now later session : ℕ) (d : Db)
    → Exclusive tenant later d
    → IsRunningIn tenant d.jobs x
    → Exclusive tenant later (complete_job env x now later session d).1
unfolding complete_job
complete_job-Exclusive env tenant (j, started) now later session d v h =
    let best =
      best_attempt_progress j.tenant j.id started j.proof_window_seconds j.max_proof_attempts now
        d.shares in
    elim (Bool-cases (ltb best.work j.required_work)) [
      | inl e ↦ rw (e, complete_job) v
      | inr e ↦
          rw (e, complete_job)
            (subst
              (λ t.
                Exclusive t later
                  (open_session_for_completed_job env j best.work session later d).1)
              h.0
              (open_session-Exclusive env j best.work session later d
                (subst (λ t. Exclusive t later d) (sym h.0) v)
                (subst (λ t. 0 < count (running_job t j.id) d.jobs) (sym h.0) h.1)))
    ]

-- The loop runs at most once, so it ends at the time of the one transaction.
complete_jobs-Exclusive :
    (env : Env) (o : Oracle) (tenant : ℕ) (xs : List Started) (d : Db)
    → Exclusive tenant (o.clock 3) d
    → length xs ≤ 1
    → All (IsRunningIn tenant d.jobs) xs
    → Exclusive tenant (o.clock 3) (complete_jobs env o 2 xs d).1
unfolding complete_jobs
complete_jobs-Exclusive env o tenant [] d v short h = v
complete_jobs-Exclusive env o tenant (x ∷ y ∷ xs) d v short h = absurd (omega arith)
complete_jobs-Exclusive env o tenant (x ∷ []) d v short h =
    ground (arith, complete_job-Exclusive env tenant x (o.clock 2) (o.clock 3) (o.fresh 2) d v h.0)

and_then-Exclusive :
    (tenant last : ℕ) (r : Outcome (Unit {0}))
    → Exclusive tenant last r.1
    → Exclusive tenant last (and_then r (λ e. (ok tt, promote_next_queued tenant last e))).1
and_then-Exclusive tenant last (ok u, e) v = promote_next_queued-Exclusive v
and_then-Exclusive tenant last (err x, e) v = v

-- The readings of the clock in one pass, in order.
abbrev pub InOrder : Oracle → ℕ → Type 0
InOrder o last = (o.clock 0 ≤ o.clock 1) × (o.clock 1 ≤ o.clock 3) × (o.clock 3 ≤ last)

-- A pass keeps the queue exclusive on success and on every error: one job at most runs, one session at
-- most is active, no job runs beside a live session, and no two jobs share an id.
pub reconcile-Exclusive :
    (env : Env) (o : Oracle) (tenant last : ℕ) (d : Db)
    → InOrder o last
    → Exclusive tenant (o.clock 0) d
    → Exclusive tenant last (reconcile env o tenant last d).1
unfolding reconcile complete_running_jobs
reconcile-Exclusive env o tenant last d order v =
    and_then-Exclusive tenant last (complete_jobs env o 2 (running_jobs tenant timed.jobs) timed) (
      later-Exclusive order.2 (
        complete_jobs-Exclusive env o tenant (running_jobs tenant timed.jobs) timed timed_v
          (omega (arith, length-running_jobs tenant timed.jobs, timed_v.one_running))
          (running_jobs-IsRunningIn tenant timed.jobs)))
  where
    timed : Db
    timed = timeout_jobs tenant (o.clock 1) (expire_sessions tenant (o.clock 0) d)

    timed_v : Exclusive tenant (o.clock 3) timed
    timed_v =
        later-Exclusive order.1
          (timeout_jobs-Exclusive (later-Exclusive order.0 (expire_sessions-Exclusive v)))
