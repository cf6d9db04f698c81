-- ===== src/Access/Queue/Exclusive.antt =====
-- What the queue of a tenant keeps: one job at most runs, one session at most is active, and no job
-- runs beside a live session.
use archivon.Prelude.{
  ℕ, ◌+◌, ◌≤◌, ◌≡◌, refl, Bool, true, List, ◌⊎◌, inl, inr, ◌==◌, count, arith, Bool-cases,
  Option-cases,
}
use archivon.Store.{Db, JobRow, SessionRow}
use archivon.Store.Table.{
  update_where, first_by, count-update_where_le, count-update_where_keep, count-update_where_mono,
  count_mono, count-update_where_agree,
}
use archivon.Access.Queue.{
  runs, waits, holds, live, can_start_job, start, start_oldest, promote_next_queued, expire_rows,
  expire_sessions, timeout_jobs, times_out, time_out,
}

abbrev pub has_id : ℕ → JobRow → Bool
has_id i j = j.id == i

pub record Exclusive (tenant now : ℕ) (d : Db) : Type 0 where
  pub distinct : (i : ℕ) → count (has_id i) d.jobs ≤ 1
  pub one_running : count (runs tenant) d.jobs ≤ 1
  pub one_active : count (holds tenant) d.sessions ≤ 1
  pub not_both : (count (live tenant now) d.sessions ≡ 0) ⊎ (count (runs tenant) d.jobs ≡ 0)

-- Sessions only run out as time goes on.
pub live_later :
    (tenant now later : ℕ) (ss : List SessionRow)
    → now ≤ later
    → count (live tenant later) ss ≤ count (live tenant now) ss
live_later tenant now later ss h =
    count_mono (live tenant later) (live tenant now) (λ s e. ground arith) ss

-- A live session is an active one.
pub live-le-holds :
    (tenant now : ℕ) (ss : List SessionRow) → count (live tenant now) ss ≤ count (holds tenant) ss
live-le-holds tenant now ss = count_mono (live tenant now) (holds tenant) (λ s e. ground arith) ss

pub later-Exclusive :
    {tenant now later : ℕ} {d : Db}
    → now ≤ later
    → Exclusive tenant now d
    → Exclusive tenant later d
later-Exclusive {tenant} {now} {later} {d} h v = record {
  distinct = v.distinct;
  one_running = v.one_running;
  one_active = v.one_active;
  not_both = elim v.not_both [
    | inl e ↦ inl (omega (arith, live_later tenant now later d.sessions h))
    | inr e ↦ inr e
  ];
}

-- A change of jobs that keeps their ids keeps them distinct.
pub distinct-update_where :
    (p : JobRow → Bool) (f : JobRow → JobRow)
    → ((j : JobRow) → (f j).id ≡ j.id)
    → (jobs : List JobRow) (i : ℕ)
    → count (has_id i) (update_where p f jobs) ≡ count (has_id i) jobs
distinct-update_where p f h jobs i =
    count-update_where_keep (has_id i) p f (λ j. ground (arith, h j)) jobs

pub distinct-start_oldest :
    (tenant now : ℕ) (jobs : List JobRow) (i : ℕ)
    → count (has_id i) (start_oldest tenant now jobs) ≡ count (has_id i) jobs
unfolding start_oldest
distinct-start_oldest tenant now jobs i =
    elim (Option-cases (first_by (λ (j : JobRow). j.created_at) (waits tenant) jobs)) [
      | inl e ↦ rw (e, start_oldest) refl
      | inr (next, e) ↦
          rw (e, start_oldest)
            (distinct-update_where (λ (j : JobRow). j.id == next.id) (start now) (λ j. refl) jobs i)
    ]

pub runs-start_oldest :
    (tenant now : ℕ) (jobs : List JobRow)
    → ((i : ℕ) → count (has_id i) jobs ≤ 1)
    → count (runs tenant) (start_oldest tenant now jobs) ≤ count (runs tenant) jobs + 1
unfolding start_oldest
runs-start_oldest tenant now jobs h =
    elim (Option-cases (first_by (λ (j : JobRow). j.created_at) (waits tenant) jobs)) [
      | inl e ↦ rw (e, start_oldest) (omega arith)
      | inr (next, e) ↦
          rw (e, start_oldest)
            (omega (
              arith,
              count-update_where_le (runs tenant) (λ (j : JobRow). j.id == next.id) (start now)
                  jobs,
              h next.id,
            ))
    ]

-- promoteNextQueuedTx keeps the queue exclusive, at the time of its transaction.
pub promote_next_queued-Exclusive :
    {tenant now : ℕ} {d : Db}
    → Exclusive tenant now d
    → Exclusive tenant now (promote_next_queued tenant now d)
unfolding promote_next_queued
promote_next_queued-Exclusive {tenant} {now} {d} v =
    elim (Bool-cases (can_start_job tenant now d)) [
      | inl e ↦
          rw (e, promote_next_queued)
            (record {
              distinct =
                  λ i. omega (arith, distinct-start_oldest tenant now d.jobs i, v.distinct i);
              one_running = ground (arith, e, runs-start_oldest tenant now d.jobs v.distinct);
              one_active = v.one_active;
              not_both = inl (ground (arith, e));
            })
      | inr e ↦ rw (e, promote_next_queued) v
    ]

holds-expire_rows_le :
    (tenant now : ℕ) (ss : List SessionRow)
    → count (holds tenant) (expire_rows tenant now ss) ≤ count (holds tenant) ss
unfolding expire_rows
holds-expire_rows_le tenant now = count-update_where_mono (holds tenant) _ _ (λ s e k. ground arith)

live-expire_rows_le :
    (tenant now : ℕ) (ss : List SessionRow)
    → count (live tenant now) (expire_rows tenant now ss) ≤ count (live tenant now) ss
unfolding expire_rows
live-expire_rows_le tenant now =
    count-update_where_mono (live tenant now) _ _ (λ s e k. ground arith)

-- After the update every active session of the tenant is live.
pub holds-expire_rows :
    (tenant now : ℕ) (ss : List SessionRow)
    → count (holds tenant) (expire_rows tenant now ss)
      ≡ count (live tenant now) (expire_rows tenant now ss)
unfolding expire_rows
holds-expire_rows tenant now =
    count-update_where_agree (holds tenant) (live tenant now) _ _ (λ s. ground arith)

-- expireSessions keeps the queue exclusive.
pub expire_sessions-Exclusive :
    {tenant now : ℕ} {d : Db}
    → Exclusive tenant now d
    → Exclusive tenant now (expire_sessions tenant now d)
unfolding expire_sessions
expire_sessions-Exclusive {tenant} {now} {d} v = record {
  distinct = v.distinct;
  one_running = v.one_running;
  one_active = omega (arith, v.one_active, holds-expire_rows_le tenant now d.sessions);
  not_both = elim v.not_both [
    | inl e ↦ inl (omega (arith, e, live-expire_rows_le tenant now d.sessions))
    | inr e ↦ inr e
  ];
}

-- A change of jobs that starts none keeps the queue exclusive.
pub update_jobs-Exclusive :
    {tenant now : ℕ} {d : Db} (p : JobRow → Bool) (f : JobRow → JobRow)
    → ((j : JobRow) → (f j).id ≡ j.id)
    → ((j : JobRow) → p j ≡ true → runs tenant (f j) ≡ true → runs tenant j ≡ true)
    → Exclusive tenant now d
    → Exclusive tenant now (record d { jobs = update_where p f d.jobs })
update_jobs-Exclusive {tenant} {now} {d} p f same stops v =
    let fewer = count-update_where_mono (runs tenant) p f stops d.jobs in
    record {
      distinct = λ i. omega (arith, distinct-update_where p f same d.jobs i, v.distinct i);
      one_running = omega (arith, fewer, v.one_running);
      one_active = v.one_active;
      not_both = elim v.not_both [ inl e ↦ inl e | inr e ↦ inr (omega (arith, fewer, e)) ];
    }

-- timeoutJobs keeps the queue exclusive.
pub timeout_jobs-Exclusive :
    {tenant now : ℕ} {d : Db}
    → Exclusive tenant now d
    → Exclusive tenant now (timeout_jobs tenant now d)
unfolding timeout_jobs
timeout_jobs-Exclusive {tenant} {now} {d} v = promote_next_queued-Exclusive (
    update_jobs-Exclusive (times_out tenant now) (time_out now) (λ j. refl) (λ j e k. ground arith)
      v)
