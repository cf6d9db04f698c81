-- ===== src/Access/Jobs/Answer.antt =====
-- What createJob answers to a caller whom nothing stands against.
use mathlib.Core.List.{Memᴰ}
use archivon.Prelude.{
  ℕ, ◌≤◌, ◌≡◌, refl, sym, ap, ◌∙◌, subst, Bool, true, false, none, some, List, [], ◌∷◌, ◌++◌, ◌⊎◌,
  inl, inr, count, count-append, find?, ok, ltb, arith, Option-cases,
}
use archivon.Text.Trim.{Text}
use archivon.Text.Uuid.{is_uuid_like}
use archivon.Store.{Db, JobRow, SessionRow}
use archivon.Store.Table.{first_by, count_mono}
use archivon.Store.Tx.{Outcome, transaction}
use archivon.Access.Env.{Env, User}
use archivon.Access.Policy.{Policy}
use archivon.Access.Queue.{live, can_start_job, active_session_exists}
use archivon.Access.Queue.Exclusive.{has_id}
use archivon.Access.Queue.Order.{first_by-none, first_by-IsFirst}
use archivon.Access.Jobs.{
  can_unlock, load_folder_policy, new_job, insert_job_tx, insert_job, find_or_insert_job,
  create_allowed_job, create_job, Created, existing_job, new, live_for_folder, open_for_folder,
  job_key,
}
use archivon.Access.Jobs.Creating.{load_folder_policy-SameQueue, insert_job_db}

-- The user has exactly one open job for the folder, and the answer is that job: either he had it, and
-- the jobs are as they were, or he had none, and it is the one job that was added.
abbrev pub IsAnswer : User → (folder : ℕ) → List JobRow → Outcome Created → JobRow → Type 0
IsAnswer user folder before o j =
    (open_for_folder user folder j ≡ true)
    × (count (open_for_folder user folder) o.1.jobs ≡ 1)
    × (((o.0 ≡ ok (existing_job j)) × Memᴰ j before × (o.1.jobs ≡ before))
        ⊎ ((o.0 ≡ ok (new j))
            × (count (open_for_folder user folder) before ≡ 0)
            × (o.1.jobs ≡ before ++ (j ∷ []))))

find-append :
    (p : JobRow → Bool) (xs : List JobRow) (x : JobRow)
    → count p xs ≡ 0
    → p x ≡ true
    → find? p (xs ++ (x ∷ [])) ≡ some x
find-append p [] x h e = ground (arith, e)
find-append p (y ∷ xs) x h e = ground (arith, h, find-append p xs x, e)

find-none : (p : SessionRow → Bool) (xs : List SessionRow) → count p xs ≡ 0 → find? p xs ≡ none
find-none p [] h = refl
find-none p (x ∷ xs) h = ground (arith, h, find-none p xs)

count_pos :
    (p : JobRow → Bool) (xs : List JobRow) (x : JobRow) → Memᴰ x xs → p x ≡ true → 1 ≤ count p xs
count_pos p [] x m e = elim m [ ]
count_pos p (y ∷ xs) x (Memᴰ.head h) e =
    let py : p y ≡ true = subst (λ z. p z ≡ true) h e in ground (arith, py)
count_pos p (y ∷ xs) x (Memᴰ.tail m) e = ground (arith, count_pos p xs x m e)

abbrev created : JobRow → ℕ
created j = j.created_at

insert_job_result :
    (user : User) (folder : ℕ) (policy : Policy) (id now : ℕ) (ip : Text) (d : Db)
    → active_session_exists user.tenant now d ≡ false
    → count (has_id id) d.jobs ≡ 0
    → (insert_job user folder policy id now ip d).0
      ≡ ok (new (new_job user folder policy (can_start_job user.tenant now d) id now))
unfolding insert_job insert_job_tx transaction new_job
insert_job_result user folder policy id now ip d free unused = ground (
  arith,
  free,
  find-append (job_key user.tenant id) d.jobs
      (new_job user folder policy (can_start_job user.tenant now d) id now)
      (omega (
        arith,
        unused,
        count_mono (job_key user.tenant id) (has_id id) (λ j e. ground (arith, e)) d.jobs,
      ))
      (ground arith),
)

find_or_insert_answers :
    (user : User) (folder : ℕ) (policy : Policy) (id now : ℕ) (ip : Text) (d : Db)
    → active_session_exists user.tenant now d ≡ false
    → count (has_id id) d.jobs ≡ 0
    → count (open_for_folder user folder) d.jobs ≤ 1
    → (j : JobRow) × IsAnswer user folder d.jobs
        (find_or_insert_job user folder policy id now ip d)
        j
unfolding find_or_insert_job active_session_exists new_job
find_or_insert_answers user folder policy id now ip d free unused one =
    let no_live : count (live user.tenant now) d.sessions ≡ 0 = ground (arith, free) in
    let quiet : find? (live_for_folder user folder now) d.sessions ≡ none =
      find-none (live_for_folder user folder now) d.sessions (
        omega (
          arith,
          no_live,
          count_mono (live_for_folder user folder now) (live user.tenant now)
              (λ s e. ground (arith, e)) d.sessions,
        )) in
    elim (Option-cases (first_by created (open_for_folder user folder) d.jobs)) [
      | inr (j, e) ↦
          let (elem, hit, least) =
            first_by-IsFirst created (open_for_folder user folder) d.jobs j e in
          (
            j,
            rw (quiet, find_or_insert_job)
                (rw (e, find_or_insert_job)
                  (
                    hit,
                    omega (arith, one, count_pos (open_for_folder user folder) d.jobs j elem hit),
                    inl (refl, elem, refl),
                  )),
          )
      | inl e ↦
          let job = new_job user folder policy (can_start_job user.tenant now d) id now in
          let none_open = first_by-none created (open_for_folder user folder) d.jobs e in
          (
            job,
            rw (quiet, find_or_insert_job)
                (rw (e, find_or_insert_job)
                  (
                    ground arith,
                    ap (λ (x : Db). count (open_for_folder user folder) x.jobs)
                          (insert_job_db user folder policy id now ip d free)
                        ∙ ground (
                          arith,
                          none_open,
                          count-append (open_for_folder user folder) d.jobs (job ∷ []),
                        ),
                    inr (
                      insert_job_result user folder policy id now ip d free unused,
                      none_open,
                      ap (λ (x : Db). x.jobs) (insert_job_db user folder policy id now ip d free),
                    ),
                  )),
          )
    ]

-- A caller who may unlock the folder, of which he has at most one open job, gets an answer from
-- createJob while the folder's policy can be loaded and no session of the tenant is live: his one open
-- job for the folder. Where he had one, it is that job and none is added; where he had none, one job is
-- added, with a new id, and it is the answer.
pub create_job_answers :
    (env : Env) (user : User) (text : Text) (id now : ℕ) (ip : Text) (d e : Db) (policy : Policy)
    → is_uuid_like text ≡ true
    → can_unlock user (env.to_uuid text) now d ≡ some true
    → load_folder_policy env user.tenant text d ≡ ok (policy, e)
    → active_session_exists user.tenant now d ≡ false
    → count (has_id id) d.jobs ≡ 0
    → count (open_for_folder user (env.to_uuid text)) d.jobs ≤ 1
    → (j : JobRow) × IsAnswer user
        (env.to_uuid text)
        d.jobs
        (create_job env user text id now ip d)
        j
unfolding create_job create_allowed_job active_session_exists
create_job_answers env user text id now ip d e policy uuid may loaded free unused one =
    let folder = env.to_uuid text in
    let (sj, ss) = load_folder_policy-SameQueue env user.tenant text d e policy loaded in
    let (j, answer) =
      find_or_insert_answers user folder policy id now ip e
        (ap (λ ss. ltb 0 (count (live user.tenant now) ss)) ss ∙ free)
        (ap (count (has_id id)) sj ∙ unused)
        (subst (λ js. count (open_for_folder user folder) js ≤ 1) (sym sj) one) in
    let same : create_job env user text id now ip d
        ≡ find_or_insert_job user folder policy id now ip e =
      ground (arith, uuid, may, loaded) in
    (
      j,
      subst (λ o. IsAnswer user folder d.jobs o j) (sym same)
          (subst
            (λ js. IsAnswer user folder js (find_or_insert_job user folder policy id now ip e) j) sj
            answer),
    )
