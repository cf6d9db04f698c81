-- ===== src/Auth/Deleting/Cleanup.antt =====
-- What the deletion of a user leaves.
use archivon.Prelude.{
  ℕ, ◌≤◌, ◌≡◌, refl, ap, ◌∙◌, sym, Bool, true, none, List, [], ◌∷◌, count, ltb, ◌==◌, arith,
  Bool-cases, Option-cases, inl, inr, ok, subst, some, ◌<◌, ◌⊎◌, ◌++◌,
}
use archivon.Text.Trim.{Text}
use archivon.Store.{Db, UserRow, JobRow, SessionRow, AuditRow}
use archivon.Store.Table.{
  first_by, update_where, delete_where, count-delete_where_le, count-update_where_mono,
  count-update_where_keep,
}
use archivon.Access.Queue.{holds, live, runs, waits, start, start_oldest, promote_next_queued}
use archivon.Access.Queue.Exclusive.{
  Exclusive, has_id, promote_next_queued-Exclusive, distinct-update_where,
}
use archivon.Access.Queue.Order.{promote_work_conserving}
use archivon.Auth.Users.{user_by_id, current_user}
use archivon.Auth.Roles.{can_manage_user}
use archivon.Text.Uuid.{is_uuid_like}
use archivon.Store.Tx.{transaction}
use archivon.Auth.Deleting.{
  session_of, job_of, login_of, right_of, is_user, active_session_of, open_job_of, revoke_session,
  cancel_job, close_work, delete_rows, delete_user_row, without_user, delete_user_tx, delete_user,
  promote_next_queued_access_job, job_gone, Deleted, acts_as, deleted_audit, deleted_counts,
}
use archivon.Auth.Deleting.Promotion.{promotions_agree}

-- The jobs and sessions that are left count no more than before.
module _ (u : UserRow) (now : ℕ) (d : Db) where
  abbrev cleaned : Db
  cleaned = delete_rows u (close_work u now d)

  cleaned-ids : (i : ℕ) → count (has_id i) cleaned.jobs ≤ count (has_id i) d.jobs
  unfolding delete_rows close_work
  cleaned-ids i = omega (
    arith,
    count-delete_where_le (has_id i) (job_of u)
        (update_where (open_job_of u) (cancel_job now) d.jobs),
    distinct-update_where (open_job_of u) (cancel_job now) (λ j. refl) d.jobs i,
  )

  cleaned-runs : (tenant : ℕ) → count (runs tenant) cleaned.jobs ≤ count (runs tenant) d.jobs
  unfolding delete_rows close_work
  cleaned-runs tenant = omega (
    arith,
    count-delete_where_le (runs tenant) (job_of u)
        (update_where (open_job_of u) (cancel_job now) d.jobs),
    count-update_where_mono (runs tenant) (open_job_of u) (cancel_job now)
        (λ j h k. ground (arith, h, k)) d.jobs,
  )

  -- A test of sessions that does not read the job, and that no revoked session passes.
  cleaned-sessions :
      (q : SessionRow → Bool)
      → ((s : SessionRow) → q (record s { pow_job = none }) ≡ q s)
      → ((s : SessionRow) → q (revoke_session now s) ≡ true → q s ≡ true)
      → count q cleaned.sessions ≤ count q d.sessions
  unfolding delete_rows close_work
  cleaned-sessions q same h =
      let revoked = update_where (active_session_of u) (revoke_session now) d.sessions in
      omega (
        arith,
        count-update_where_keep q
            (λ (s : SessionRow). job_gone u (close_work u now d).jobs s.pow_job)
            (λ (s : SessionRow). record s { pow_job = none }) same
            (delete_where (session_of u) revoked),
        count-delete_where_le q (session_of u) revoked,
        count-update_where_mono q (active_session_of u) (revoke_session now) (λ s k l. h s l)
            d.sessions,
      )

  cleaned-Exclusive : (tenant : ℕ) → Exclusive tenant now d → Exclusive tenant now cleaned
  cleaned-Exclusive tenant v = record {
    distinct = λ i. omega (arith, cleaned-ids i, v.distinct i);
    one_running = omega (arith, cleaned-runs tenant, v.one_running);
    one_active = omega (
      arith,
      cleaned-sessions (holds tenant) (λ s. refl) (λ s h. ground (arith, h)),
      v.one_active,
    );
    not_both = elim v.not_both [
      | inl e ↦ inl (
          omega
            (arith, e, cleaned-sessions (live tenant now) (λ s. refl) (λ s h. ground (arith, h))))
      | inr e ↦ inr (omega (arith, e, cleaned-runs tenant))
    ];
  }

without_user-Exclusive :
    (actor u : UserRow) (ip : Text) (now tenant : ℕ) (d : Db)
    → u.tenant ≡ tenant
    → Exclusive tenant now d
    → Exclusive tenant now (without_user actor u ip now d)
unfolding without_user delete_user_row
without_user-Exclusive actor u ip now tenant d t v = kept (
    subst (Exclusive tenant now) (sym (promotions_agree u.tenant now (cleaned u now d))) (
      subst (λ k. Exclusive tenant now (promote_next_queued k now (cleaned u now d))) (sym t)
        (promote_next_queued-Exclusive (cleaned-Exclusive u now d tenant v))))
  where
    kept :
        Exclusive tenant now (promote_next_queued_access_job u.tenant now (cleaned u now d))
        → Exclusive tenant now (without_user actor u ip now d)
    kept w = record {
      distinct = w.distinct;
      one_running = w.one_running;
      one_active = w.one_active;
      not_both = w.not_both;
    }

-- The queue of a tenant does not stand idle.
abbrev Served : (tenant now : ℕ) → Db → Type 0
Served tenant now e =
    (count (waits tenant) e.jobs ≡ 0)
    ⊎ ((0 < count (runs tenant) e.jobs) ⊎ (0 < count (live tenant now) e.sessions))

without_user-Served :
    (actor u : UserRow) (ip : Text) (now : ℕ) (d : Db)
    → Served u.tenant now (without_user actor u ip now d)
unfolding without_user delete_user_row
without_user-Served actor u ip now d =
    subst (Served u.tenant now) (sym (promotions_agree u.tenant now (cleaned u now d)))
      (promote_work_conserving u.tenant now (cleaned u now d))

-- Rows that pass the test of a DELETE are gone.
count-delete_where {ℓ} : {A : Type ℓ} (p : A → Bool) (xs : List A) → count p (delete_where p xs) ≡ 0
unfolding delete_where
count-delete_where p [] = refl
count-delete_where p (x ∷ xs) = ground (arith, count-delete_where p xs)

no_actor-cleared :
    (u : UserRow) (rows : List AuditRow)
    → count
        (acts_as u)
        (update_where (acts_as u) (λ (a : AuditRow). record a { actor = none }) rows)
      ≡ 0
unfolding update_where
no_actor-cleared u [] = refl
no_actor-cleared u (a ∷ rows) = ground (arith, no_actor-cleared u rows)

promote-tables :
    (tenant now : ℕ) (d : Db)
    → ((promote_next_queued tenant now d).sessions ≡ d.sessions)
      × ((promote_next_queued tenant now d).user_sessions ≡ d.user_sessions)
      × ((promote_next_queued tenant now d).permissions ≡ d.permissions)
unfolding promote_next_queued
promote-tables tenant now d = ground arith

delete_user-found :
    (to_uuid : Text → ℕ) (token target ip : Text) (now : ℕ) (d : Db) (x : Deleted)
    → (delete_user to_uuid token target ip now d).0 ≡ ok x
    → (actor : UserRow) × (current_user token now d ≡ some actor)
      × (user_by_id (to_uuid target) d ≡ some x.user)
      × (can_manage_user actor x.user ≡ true)
      × ((delete_user to_uuid token target ip now d).1 ≡ without_user actor x.user ip now d)
unfolding delete_user delete_user_tx transaction
delete_user-found to_uuid token target ip now d x h =
    elim (Option-cases (current_user token now d)) [
      | inl e ↦ ground (arith, h, e)
      | inr (actor, e) ↦ elim (Bool-cases (is_uuid_like target)) [
        | inr f ↦ ground (arith, h, e, f)
        | inl f ↦ elim (Option-cases (user_by_id (to_uuid target) d)) [
          | inl g ↦ ground (arith, h, e, f, g)
          | inr (t, g) ↦ elim (Bool-cases (can_manage_user actor t)) [
            | inr m ↦ ground (arith, h, e, f, g, m)
            | inl m ↦ elim (Bool-cases (ltb 0 (count (is_user t) d.users))) [
              | inr n ↦ ground (arith, h, e, f, g, m, n)
              | inl n ↦ (
                actor,
                e,
                g ∙ ap some (ground (arith, h, e, f, g, m, n)),
                ground (arith, h, e, f, g, m, n),
                ground (arith, h, e, f, g, m, n),
              )
            ]
          ]
        ]
      ]
    ]

-- No user, login, access session, job or permission is the user's, and no audit row names him as the
-- one who acted.
pub record IsForgotten (u : UserRow) (d : Db) : Type 0 where
  pub no_user : count (is_user u) d.users ≡ 0
  pub no_login : count (login_of u) d.user_sessions ≡ 0
  pub no_session : count (session_of u) d.sessions ≡ 0
  pub no_job : count (job_of u) d.jobs ≡ 0
  pub no_right : count (right_of u) d.permissions ≡ 0
  pub no_actor : count (acts_as u) d.audit ≡ 0

job_of-start_oldest :
    (u : UserRow) (tenant now : ℕ) (jobs : List JobRow)
    → count (job_of u) (start_oldest tenant now jobs) ≡ count (job_of u) jobs
unfolding start_oldest
job_of-start_oldest u tenant now jobs =
    elim (Option-cases (first_by (λ (j : JobRow). j.created_at) (waits tenant) jobs)) [
      | inl e ↦ rw (e, start_oldest) refl
      | inr (next, e) ↦
          rw (e, start_oldest)
            (count-update_where_keep (job_of u) (λ (j : JobRow). j.id == next.id) (start now)
              (λ j. refl) jobs)
    ]

job_of-promote :
    (u : UserRow) (tenant now : ℕ) (d : Db)
    → count (job_of u) (promote_next_queued tenant now d).jobs ≡ count (job_of u) d.jobs
unfolding promote_next_queued
job_of-promote u tenant now d = ground (arith, job_of-start_oldest u tenant now d.jobs)

without_user-IsForgotten :
    (actor u : UserRow) (ip : Text) (now : ℕ) (d : Db)
    → IsForgotten u (without_user actor u ip now d)
unfolding without_user delete_user_row
without_user-IsForgotten actor u ip now d =
    let same = promotions_agree u.tenant now (cleaned u now d) in
    let tables = promote-tables u.tenant now (cleaned u now d) in
    record {
      no_user = count-delete_where (is_user u) _;
      no_login =
          ap (λ (e : Db). count (login_of u) e.user_sessions) same
          ∙ ap (count (login_of u)) tables.1
          ∙ cleaned-logins;
      no_session =
          ap (λ (e : Db). count (session_of u) e.sessions) same
          ∙ ap (count (session_of u)) tables.0
          ∙ cleaned-none;
      no_job =
          ap (λ (e : Db). count (job_of u) e.jobs) same
          ∙ job_of-promote u u.tenant now (cleaned u now d)
          ∙ cleaned-jobs;
      no_right =
          ap (λ (e : Db). count (right_of u) e.permissions) same
          ∙ ap (count (right_of u)) tables.2
          ∙ cleaned-rights;
      no_actor = no_actor-cleared u (
          (promote_next_queued_access_job u.tenant now (cleaned u now d)).audit
          ++ (deleted_audit actor (deleted_counts u d) ip ∷ []));
    }
  where
    cleaned-logins : count (login_of u) (cleaned u now d).user_sessions ≡ 0
    cleaned-logins = count-delete_where (login_of u) _

    cleaned-none : count (session_of u) (cleaned u now d).sessions ≡ 0
    cleaned-none =
        count-update_where_keep (session_of u)
          (λ (s : SessionRow). job_gone u (close_work u now d).jobs s.pow_job)
          (λ (s : SessionRow). record s { pow_job = none }) (λ s. refl)
          (delete_where (session_of u) (close_work u now d).sessions)
        ∙ count-delete_where (session_of u) (close_work u now d).sessions

    cleaned-jobs : count (job_of u) (cleaned u now d).jobs ≡ 0
    cleaned-jobs = count-delete_where (job_of u) _

    cleaned-rights : count (right_of u) (cleaned u now d).permissions ≡ 0
    cleaned-rights = count-delete_where (right_of u) _

-- A request to delete a user that succeeds comes from the user of its cookie, who may manage him. Then
-- no user, login, access session, job or permission is his, and no audit row names him as the one who
-- acted. The queue of his tenant, which was exclusive, stays so, and does not stand idle: no job waits,
-- or one runs, or a session is live.
pub delete_user_cleanup :
    (to_uuid : Text → ℕ) (token target ip : Text) (now : ℕ) (d : Db) (x : Deleted)
    → (delete_user to_uuid token target ip now d).0 ≡ ok x
    → Exclusive x.user.tenant now d
    → let after = (delete_user to_uuid token target ip now d).1 in
      ((actor : UserRow) × (current_user token now d ≡ some actor)
        × (user_by_id (to_uuid target) d ≡ some x.user)
        × (can_manage_user actor x.user ≡ true))
      × IsForgotten x.user after
      × Exclusive x.user.tenant now after
      × ((count (waits x.user.tenant) after.jobs ≡ 0)
          ⊎ ((0 < count (runs x.user.tenant) after.jobs)
              ⊎ (0 < count (live x.user.tenant now) after.sessions)))
delete_user_cleanup to_uuid token target ip now d x h v =
    let (actor, e, found, may, after) = delete_user-found to_uuid token target ip now d x h in
    (
      (actor, e, found, may),
      subst (IsForgotten x.user) (sym after) (without_user-IsForgotten actor x.user ip now d),
      subst (Exclusive x.user.tenant now) (sym after)
          (without_user-Exclusive actor x.user ip now x.user.tenant d refl v),
      subst (Served x.user.tenant now) (sym after) (without_user-Served actor x.user ip now d),
    )
