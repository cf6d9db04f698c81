-- ===== src/Access/Jobs/Creating.antt =====
-- What createJob does: who is refused, when the job starts at once, and that the queue stays exclusive.
use archivon.Prelude.{
  ℕ, ◌≡◌, ◌≢◌, refl, Bool, true, false, Option, none, some, [], ◌∷◌, ◌++◌, if◌then◌else◌, count,
  count-append, find?, ok, err, Result-cases, subst, sym, arith, Bool-cases, Option-cases, inl, inr,
  ◌⊎◌,
}
use archivon.Text.Trim.{Text, text_eq, is_empty}
use archivon.Text.Uuid.{is_uuid_like}
use archivon.Store.{Db, JobRow, FolderRow, queued, running, pow_job_created, info}
use archivon.Store.Table.{first_by}
use archivon.Store.Tx.{access_error, failure, transaction, then_read-db}
use archivon.Access.Env.{Env, Kms, User}
use archivon.Access.Policy.{Policy}
use archivon.Access.Queue.{runs, can_start_job, active_session_exists}
use archivon.Access.Queue.Exclusive.{Exclusive, has_id}
use archivon.Access.Jobs.{
  can_unlock, load_policy, load_folder_policy, seal_payload, with_folder, folder_key, stored_text,
  new_job, insert_job_tx, insert_job, find_or_insert_job, create_allowed_job, create_job, Created,
  live_for_folder, open_for_folder, job_key,
}

-- Loading the policy writes folder seals only.
abbrev pub SameQueue : Db → Db → Type 0
SameQueue d e = (e.jobs ≡ d.jobs) × (e.sessions ≡ d.sessions)

pub load_folder_policy-SameQueue :
    (env : Env) (tenant : ℕ) (folder : Text) (d e : Db) (p : Policy)
    → load_folder_policy env tenant folder d ≡ ok (p, e)
    → SameQueue d e
unfolding load_folder_policy
load_folder_policy-SameQueue env tenant folder d e p h = ground arith

abbrev pub inserted_db :
    User → (folder : ℕ) → Policy → (starts : Bool) → (id now : ℕ) (ip : Text) → Db → Db
inserted_db user folder policy starts id now ip d = record d {
  jobs = d.jobs ++ (new_job user folder policy starts id now ∷ []);
  audit =
      d.audit
      ++ (record {
        tenant = user.tenant;
        actor = some user.id;
        event = pow_job_created (if starts then running else queued);
        target = some id;
        severity = info;
        ip_address = ip;
      }
          ∷ []);
}

-- A tenant with a live session is refused a new job.
insert_job_refused :
    (user : User) (folder : ℕ) (policy : Policy) (id now : ℕ) (ip : Text) (d : Db)
    → active_session_exists user.tenant now d ≡ true
    → insert_job user folder policy id now ip d
      ≡ (err (access_error 409 "active_session_must_be_closed"), d)
unfolding insert_job
insert_job_refused user folder policy id now ip d h = ground arith

-- Otherwise the job is inserted, running exactly where nothing blocks it.
pub insert_job_db :
    (user : User) (folder : ℕ) (policy : Policy) (id now : ℕ) (ip : Text) (d : Db)
    → active_session_exists user.tenant now d ≡ false
    → (insert_job user folder policy id now ip d).1
      ≡ inserted_db user folder policy (can_start_job user.tenant now d) id now ip d
unfolding insert_job
insert_job_db user folder policy id now ip d h = ground (
  arith,
  then_read-db (transaction (insert_job_tx user folder policy id now ip) d) (λ e.
      elim (find? (job_key user.tenant id) e.jobs) [ none ↦ none | some j ↦ some (Created.new j) ]),
)

inserted_db-Exclusive :
    (user : User) (folder : ℕ) (policy : Policy) (id now : ℕ) (ip : Text) (d : Db)
    → Exclusive user.tenant now d
    → count (has_id id) d.jobs ≡ 0
    → Exclusive user.tenant now
        (inserted_db user folder policy (can_start_job user.tenant now d) id now ip d)
unfolding new_job can_start_job
inserted_db-Exclusive user folder policy id now ip d v unused = record {
  distinct = λ i. ground (
    arith,
    count-append (has_id i) d.jobs
        (new_job user folder policy (can_start_job user.tenant now d) id now ∷ []),
    v.distinct i,
    unused,
  );
  one_running = ground (
    arith,
    count-append (runs user.tenant) d.jobs
        (new_job user folder policy (can_start_job user.tenant now d) id now ∷ []),
    v.one_running,
  );
  one_active = v.one_active;
  not_both = ground (
    arith,
    count-append (runs user.tenant) d.jobs
        (new_job user folder policy (can_start_job user.tenant now d) id now ∷ []),
    v.not_both,
  );
}

insert_job-Exclusive :
    (user : User) (folder : ℕ) (policy : Policy) (id now : ℕ) (ip : Text) (d : Db)
    → Exclusive user.tenant now d
    → count (has_id id) d.jobs ≡ 0
    → Exclusive user.tenant now (insert_job user folder policy id now ip d).1
insert_job-Exclusive user folder policy id now ip d v unused =
    elim (Bool-cases (active_session_exists user.tenant now d)) [
      | inl held ↦ rw (insert_job_refused user folder policy id now ip d held) v
      | inr free ↦
          rw (insert_job_db user folder policy id now ip d free)
            (inserted_db-Exclusive user folder policy id now ip d v unused)
    ]

find_or_insert_cases :
    (P : Db → Type 0) (user : User) (folder : ℕ) (p : Policy) (id now : ℕ) (ip : Text) (e : Db)
    → P e
    → (first_by (λ (j : JobRow). j.created_at) (open_for_folder user folder) e.jobs ≡ none
        → P (insert_job user folder p id now ip e).1)
    → P (find_or_insert_job user folder p id now ip e).1
unfolding find_or_insert_job
find_or_insert_cases P user folder p id now ip e same inserted =
    elim (Option-cases (find? (live_for_folder user folder now) e.sessions)) [
      | inr (s, h) ↦ rw (h, find_or_insert_job) same
      | inl h ↦
          elim (Option-cases
            (first_by (λ (j : JobRow). j.created_at) (open_for_folder user folder) e.jobs)) [
              | inr (j, k) ↦ rw (h, find_or_insert_job) (rw (k, find_or_insert_job) same)
              | inl k ↦ rw (h, find_or_insert_job) (rw (k, find_or_insert_job) (inserted k))
            ]
    ]

-- A property of the tables that loading the policy keeps and inserting keeps, createJob keeps.
create_allowed_cases :
    (P : Db → Type 0) (env : Env) (user : User) (folder : Text) (id now : ℕ) (ip : Text) (d : Db)
    → P d
    → ((e : Db) (p : Policy)
        → load_folder_policy env user.tenant folder d ≡ ok (p, e)
        → P (find_or_insert_job user (env.to_uuid folder) p id now ip e).1)
    → P (create_allowed_job env user folder id now ip d).1
unfolding create_allowed_job
create_allowed_cases P env user folder id now ip d same loaded =
    elim (Result-cases (load_folder_policy env user.tenant folder d)) [
      | inr (x, h) ↦ rw (h, create_allowed_job) same
      | inl (pe, h) ↦ rw (h, create_allowed_job) (loaded pe.1 pe.0 h)
    ]

-- Without `some true` from the query the call ends.
pub create_job_denied :
    (env : Env) (user : User) (text : Text) (id now : ℕ) (ip : Text) (d : Db)
    → can_unlock user (env.to_uuid text) now d ≢ some true
    → ((create_job env user text id now ip d).1 ≡ d)
      × (((create_job env user text id now ip d).0 ≡ err (access_error 404 "folder_not_found"))
          ⊎ ((create_job env user text id now ip d).0
              ≡ err (access_error 403 "unlock_not_allowed")))
unfolding create_job
create_job_denied env user text id now ip d h = ground (arith, h)

create_job_cases :
    (P : Db → Type 0) (env : Env) (user : User) (text : Text) (id now : ℕ) (ip : Text) (d : Db)
    → P d
    → P (create_allowed_job env user text id now ip d).1
    → P (create_job env user text id now ip d).1
unfolding create_job
create_job_cases P env user text id now ip d same allowed = elim (Bool-cases (is_uuid_like text)) [
  | inr e ↦ rw (e, create_job) same
  | inl e ↦ elim (can_unlock_cases (can_unlock user (env.to_uuid text) now d)) [
    | inl h ↦ subst P (sym (ground (arith, e, h))) allowed
    | inr h ↦ subst P (sym (create_job_denied env user text id now ip d h).0) same
  ]
]
  where
    can_unlock_cases : (o : Option Bool) → (o ≡ some true) ⊎ (o ≢ some true)
    can_unlock_cases none = inr (λ e. cc)
    can_unlock_cases (some false) = inr (λ e. cc)
    can_unlock_cases (some true) = inl refl

-- createJob keeps the queue exclusive on every branch, for an id that no job has.
pub create_job-Exclusive :
    (env : Env) (user : User) (text : Text) (id now : ℕ) (ip : Text) (d : Db)
    → Exclusive user.tenant now d
    → count (has_id id) d.jobs ≡ 0
    → Exclusive user.tenant now (create_job env user text id now ip d).1
create_job-Exclusive env user text id now ip d v unused =
    create_job_cases (Exclusive user.tenant now) env user text id now ip d v (
      create_allowed_cases (Exclusive user.tenant now) env user text id now ip d v λ e p h.
        let (sj, ss) = load_folder_policy-SameQueue env user.tenant text d e p h in
        let w : Exclusive user.tenant now e = record {
          distinct = λ i. rw sj (v.distinct i);
          one_running = rw sj v.one_running;
          one_active = rw ss v.one_active;
          not_both = rw (sj, ss) v.not_both;
        } in
        find_or_insert_cases (Exclusive user.tenant now) user (env.to_uuid text) p id now ip e w
          λ _. insert_job-Exclusive user (env.to_uuid text) p id now ip e w (rw sj unused))

seal_mismatch :
    (env : Env) (tenant : ℕ) (folder : Text) (d : Db) (global : Policy) (f : FolderRow) (kms : Kms)
    (expected : Text)
    → load_policy env d ≡ ok (global, d)
    → find? (folder_key tenant (env.to_uuid folder)) d.folders ≡ some f
    → env.kms ≡ some kms
    → kms.seal (seal_payload tenant folder (with_folder global f)) ≡ ok expected
    → is_empty (stored_text f.policy_seal) ≡ false
    → text_eq (stored_text f.policy_seal) expected ≡ false
    → load_folder_policy env tenant folder d ≡ err (failure "folder_pow_policy_seal_mismatch")
unfolding load_folder_policy
seal_mismatch env tenant folder d global f kms expected a b c e g h = ground arith

-- For a caller who may unlock the folder, a stored seal that is not the seal of the policy ends the call.
pub create_job_seal_mismatch :
    (env : Env) (user : User) (text : Text) (id now : ℕ) (ip : Text) (d : Db) (global : Policy)
    (f : FolderRow) (kms : Kms) (expected : Text)
    → load_policy env d ≡ ok (global, d)
    → find? (folder_key user.tenant (env.to_uuid text)) d.folders ≡ some f
    → env.kms ≡ some kms
    → kms.seal (seal_payload user.tenant text (with_folder global f)) ≡ ok expected
    → is_empty (stored_text f.policy_seal) ≡ false
    → text_eq (stored_text f.policy_seal) expected ≡ false
    → is_uuid_like text ≡ true
    → can_unlock user (env.to_uuid text) now d ≡ some true
    → create_job env user text id now ip d ≡ (err (failure "folder_pow_policy_seal_mismatch"), d)
unfolding create_job create_allowed_job
create_job_seal_mismatch env user text id now ip d global f kms expected a b c e g h u allowed =
    ground (arith, seal_mismatch env user.tenant text d global f kms expected a b c e g h)
