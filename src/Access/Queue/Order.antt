-- ===== src/Access/Queue/Order.antt =====
-- Which job a promotion starts: the one that has waited longest, and one whenever it can.
use archivon.Prelude.{
  ℕ, ◌≤◌, ◌<◌, ◌≡◌, refl, Bool, true, false, Option, none, some, List, [], ◌∷◌, ◌⊎◌, inl, inr, ltb,
  ◌==◌, count, All, arith, tests, subst, sym, ==_iff, Bool-cases, Option-cases,
}
use mathlib.Core.List.{Memᴰ}
use archivon.Store.{Db, JobRow}
use archivon.Store.Table.{update_where, first_by}
use archivon.Access.Queue.{
  runs, waits, live, can_start_job, start, start_oldest, promote_next_queued,
}

-- What ORDER BY key LIMIT 1 gives: nothing where no row passes the test, and otherwise a row that
-- passes it with the least key.
module _ {A : Type 0} (key : A → ℕ) (p : A → Bool) where
  abbrev pub Least : List A → A → Type 0
  Least xs a = All (λ x. p x ≡ true → key a ≤ key x) xs

  All-weaken :
      (m n : ℕ) (xs : List A)
      → n ≤ m
      → All (λ x. p x ≡ true → m ≤ key x) xs
      → All (λ x. p x ≡ true → n ≤ key x) xs
  All-weaken m n [] h v = tt
  All-weaken m n (x ∷ xs) h v = (λ e. omega (arith, v.0 e), All-weaken m n xs h v.1)

  All-none : (m : ℕ) (xs : List A) → count p xs ≡ 0 → All (λ x. p x ≡ true → m ≤ key x) xs
  All-none m [] h = tt
  All-none m (x ∷ xs) h = (λ e. absurd (ground arith), All-none m xs (ground arith))

  pub first_by-none : (xs : List A) → first_by key p xs ≡ none → count p xs ≡ 0
  unfolding first_by
  first_by-none [] e = refl
  first_by-none (x ∷ xs) e = ground (arith, first_by-none xs)

  abbrev IsFirst : List A → A → Type 0
  IsFirst xs a = Memᴰ a xs × (p a ≡ true) × Least xs a

  first_by_cons :
      (x : A) (xs : List A) (a : A) (r : Option A)
      → first_by key p xs ≡ r
      → ((b : A) → first_by key p xs ≡ some b → IsFirst xs b)
      → first_by key p (x ∷ xs) ≡ some a
      → IsFirst (x ∷ xs) a
  unfolding first_by
  first_by_cons x xs a none er ih e = elim (Bool-cases (p x)) [
    | inl hit ↦
        let same : x ≡ a = ground (arith, hit, er, e) in
        subst (IsFirst (x ∷ xs)) same
          (Memᴰ.head refl, hit, (λ _. omega arith, All-none (key x) xs (first_by-none xs er)))
    | inr miss ↦ absurd (ground (arith, miss, er, e))
  ]
  first_by_cons x xs a (some b) er ih e = elim (Bool-cases (p x)) [
    | inl hit ↦ elim (Bool-cases (ltb (key b) (key x))) [
      | inl less ↦
          let same : b ≡ a = ground (arith, hit, er, e, less) in
          subst (IsFirst (x ∷ xs)) same
            (Memᴰ.tail (ih b er).0, (ih b er).1, (λ _. omega tests, (ih b er).2))
      | inr more ↦
          let same : x ≡ a = ground (arith, hit, er, e, more) in
          subst (IsFirst (x ∷ xs)) same (
            Memᴰ.head refl,
            hit,
            (λ _. omega arith, All-weaken (key b) (key x) xs (ground (arith, more)) (ih b er).2),
          )
    ]
    | inr miss ↦
        let same : b ≡ a = ground (arith, miss, er, e) in
        subst (IsFirst (x ∷ xs)) same
          (Memᴰ.tail (ih b er).0, (ih b er).1, (λ k. absurd (ground (arith, miss, k)), (ih b er).2))
  ]

  pub first_by-IsFirst : (xs : List A) (a : A) → first_by key p xs ≡ some a → IsFirst xs a
  first_by-IsFirst [] a e = absurd (unfold first_by in cc)
  first_by-IsFirst (x ∷ xs) a e =
      first_by_cons x xs a (first_by key p xs) refl (λ b. first_by-IsFirst xs b) e

abbrev created : JobRow → ℕ
created j = j.created_at

-- Where no job runs and no session is live, a promotion starts one of the tenant's queued jobs, and
-- none of those was created earlier; it changes that row alone and no other table.
pub promote_starts_oldest :
    (tenant now : ℕ) (d : Db)
    → can_start_job tenant now d ≡ true
    → 0 < count (waits tenant) d.jobs
    → (next : JobRow) × Memᴰ next d.jobs
      × (waits tenant next ≡ true)
      × Least created (waits tenant) d.jobs next
      × (promote_next_queued tenant now d
          ≡ record d { jobs = update_where (λ j. j.id == next.id) (start now) d.jobs })
unfolding promote_next_queued start_oldest
promote_starts_oldest tenant now d free waiting =
    elim (Option-cases (first_by created (waits tenant) d.jobs)) [
      | inl e ↦ absurd (omega (arith, first_by-none created (waits tenant) d.jobs e))
      | inr (next, e) ↦
          let (elem, hit, least) = first_by-IsFirst created (waits tenant) d.jobs next e in
          (next, elem, hit, least, ground (arith, free, e))
    ]

-- Where a job runs or a session is live, a promotion changes nothing.
pub promote_waits :
    (tenant now : ℕ) (d : Db)
    → (0 < count (runs tenant) d.jobs) ⊎ (0 < count (live tenant now) d.sessions)
    → promote_next_queued tenant now d ≡ d
unfolding promote_next_queued
promote_waits tenant now d h = ground arith

count_pos :
    {A : Type 0} (q p : A → Bool) (f : A → A) (a : A) (xs : List A)
    → Memᴰ a xs
    → p a ≡ true
    → q (f a) ≡ true
    → 0 < count q (update_where p f xs)
unfolding update_where
count_pos q p f a [] m h k = elim m [ ]
count_pos q p f a (x ∷ xs) (Memᴰ.head e) h k =
    let px : p x ≡ true = subst (λ y. p y ≡ true) e h in
    let qx : q (f x) ≡ true = subst (λ y. q (f y) ≡ true) e k in ground (arith, px, qx)
count_pos q p f a (x ∷ xs) (Memᴰ.tail m) h k = ground (arith, count_pos q p f a xs m h k)

-- A promotion that may start a job does, where one waits: the queue does not stand idle.
pub promote_serves :
    (tenant now : ℕ) (d : Db)
    → can_start_job tenant now d ≡ true
    → 0 < count (waits tenant) d.jobs
    → 0 < count (runs tenant) (promote_next_queued tenant now d).jobs
promote_serves tenant now d free waiting =
    let (next, elem, hit, least, e) = promote_starts_oldest tenant now d free waiting in
    rw e (
      count_pos (runs tenant) (λ (j : JobRow). j.id == next.id) (start now) next d.jobs elem
        (ground arith) (ground (arith, hit)))

first_by-zero :
    {A : Type 0} (key : A → ℕ) (p : A → Bool) (xs : List A)
    → count p xs ≡ 0
    → first_by key p xs ≡ none
unfolding first_by
first_by-zero key p [] h = refl
first_by-zero key p (x ∷ xs) h = ground (arith, first_by-zero key p xs)

-- With no job waiting a promotion changes nothing.
pub promote_idle :
    (tenant now : ℕ) (d : Db)
    → count (waits tenant) d.jobs ≡ 0
    → promote_next_queued tenant now d ≡ d
unfolding promote_next_queued start_oldest
promote_idle tenant now d h = ground (arith, first_by-zero created (waits tenant) d.jobs h)

-- After a promotion no job of the tenant waits, or one runs, or a session is live.
pub promote_work_conserving :
    (tenant now : ℕ) (d : Db)
    → let e = promote_next_queued tenant now d in
      (count (waits tenant) e.jobs ≡ 0)
      ⊎ ((0 < count (runs tenant) e.jobs) ⊎ (0 < count (live tenant now) e.sessions))
promote_work_conserving tenant now d = elim (Bool-cases (can_start_job tenant now d)) [
  | inr busy ↦ subst Served (sym (promote_waits tenant now d (blocked busy))) (inr (blocked busy))
  | inl free ↦ elim (Bool-cases (count (waits tenant) d.jobs == 0)) [
    | inl idle ↦
        let quiet = (==_iff (count (waits tenant) d.jobs) 0).0 idle in
        subst Served (sym (promote_idle tenant now d quiet)) (inl quiet)
    | inr some_wait ↦ inr (inl (promote_serves tenant now d free (ground (arith, some_wait))))
  ]
]
  where
    Busy : Db → Type 0
    Busy x = (0 < count (runs tenant) x.jobs) ⊎ (0 < count (live tenant now) x.sessions)

    Served : Db → Type 0
    Served x = (count (waits tenant) x.jobs ≡ 0) ⊎ Busy x

    blocked : can_start_job tenant now d ≡ false → Busy d
    blocked h = unfold can_start_job in ground (arith, h)
