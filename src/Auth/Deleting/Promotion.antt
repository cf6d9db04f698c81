-- ===== src/Auth/Deleting/Promotion.antt =====
-- The queue is promoted in internal/auth as it is in internal/access.
use archivon.Prelude.{
  ℕ, ◌≡◌, refl, ap, ◌∙◌, Bool, false, not, ◌&&◌, none, List, [], ◌∷◌, any, count, ◌==◌, arith,
  Bool-cases, Option-cases, inl, inr,
}
use archivon.Store.{Db, JobRow}
use archivon.Store.Table.{first_by}
use archivon.Access.Queue.{runs, waits, live, can_start_job, start_oldest, promote_next_queued}
use archivon.Auth.Deleting.{start_next, promotable, promote_next_queued_access_job}

-- NOT EXISTS is a count of zero.
any-count {ℓ} : {A : Type ℓ} (p : A → Bool) (xs : List A) → not (any p xs) ≡ (count p xs == 0)
any-count p [] = refl
any-count p (x ∷ xs) = ground (arith, any-count p xs)

first_by_agree :
    {A : Type 0} (key : A → ℕ) (p q : A → Bool) (xs : List A)
    → ((x : A) → p x ≡ q x)
    → first_by key p xs ≡ first_by key q xs
unfolding first_by
first_by_agree key p q [] h = refl
first_by_agree key p q (x ∷ xs) h = rw (h x, first_by_agree key p q xs h) refl

first_by_never :
    {A : Type 0} (key : A → ℕ) (p : A → Bool) (xs : List A)
    → ((x : A) → p x ≡ false)
    → first_by key p xs ≡ none
unfolding first_by
first_by_never key p [] h = refl
first_by_never key p (x ∷ xs) h = rw (h x, first_by_never key p xs h) refl

idle :
    (tenant now : ℕ) (d : Db)
    → (not (any (runs tenant) d.jobs) && not (any (live tenant now) d.sessions))
      ≡ can_start_job tenant now d
unfolding can_start_job
idle tenant now d =
    ground (arith, any-count (runs tenant) d.jobs, any-count (live tenant now) d.sessions)

abbrev age : JobRow → ℕ
age j = j.created_at

start_next-start_oldest :
    (tenant now : ℕ) (d : Db)
    → start_next now d (first_by age (waits tenant) d.jobs)
      ≡ record d { jobs = start_oldest tenant now d.jobs }
unfolding start_oldest
start_next-start_oldest tenant now d = elim (Option-cases (first_by age (waits tenant) d.jobs)) [
  | inl e ↦ rw (e, start_oldest) refl
  | inr (next, e) ↦ rw (e, start_oldest) refl
]

-- promoteNextQueuedAccessJobTx, which puts its tests into the subquery, does to every table what
-- promoteNextQueuedTx of internal/access does, which asks canStartJobTx first.
pub promotions_agree :
    (tenant now : ℕ) (d : Db)
    → promote_next_queued_access_job tenant now d ≡ promote_next_queued tenant now d
unfolding promote_next_queued_access_job promote_next_queued
promotions_agree tenant now d = elim (Bool-cases (can_start_job tenant now d)) [
  | inl e ↦
      ap (start_next now d) (
        first_by_agree age (promotable tenant now d) (waits tenant) d.jobs
          (λ j. ground (arith, idle tenant now d, e)))
      ∙ start_next-start_oldest tenant now d
      ∙ rw e refl
  | inr e ↦
      ap (start_next now d) (
        first_by_never age (promotable tenant now d) d.jobs
          (λ j. ground (arith, idle tenant now d, e)))
      ∙ rw e refl
]
