-- ===== src/Access/Witnesses.antt =====
-- Tests of internal/access on the tables of Access/Examples, and the theorems of this component at
-- inputs that meet their hypotheses.
use mathlib.Core.List.{Memᴰ}
use archivon.Prelude.{
  Result, subst, false, ◌==◌, ◌≤◌, ◌<◌, ◌≡◌, refl, true, none, some, [], ◌∷◌, inl, ◌⊎◌, ◌↔◌, ok,
  err, arith, count,
}
use archivon.Text.Trim.{Text, codes, trim_space, text_eq, is_empty}
use archivon.Text.Uuid.{is_uuid_like}
use archivon.Store.{
  Db, JobRow, JobStatus, canceled, client_canceled, seconds, DavCredentials, PermissionRow,
}
use archivon.Store.Table.{update_where}
use archivon.Store.Tx.{access_error, Failure}
use archivon.Access.Policy.{Policy, normalize_policy, validate_policy, normalize_positive_int}
use archivon.Access.Policy.Laws.{IsValid, validate_policy_iff}
use archivon.Access.Env.{Env, Kms, User}
use archivon.Access.Dav.{new_dav_credentials}
use archivon.Access.Queue.{
  runs, waits, live, start, can_start_job, active_session_exists, promote_next_queued, timeout_jobs,
  expire_sessions, expire_rows, cancel_queued_jobs,
}
use archivon.Access.Queue.Exclusive.{Exclusive}
use archivon.Access.Queue.Order.{promote_starts_oldest, Least}
use archivon.Access.Progress.{best_attempt_progress, valid_share_progress}
use archivon.Access.Progress.Attempts.{best_attempt_reaches}
use archivon.Access.Sessions.{open_session_for_completed_job, close_session, close_session_as_admin}
use archivon.Access.Sessions.Closing.{close_session_hands_over, close_session_as_admin_hands_over}
use archivon.Access.Jobs.{
  create_job, cancel_job, can_unlock, load_folder_policy, load_policy, seal_payload, with_folder,
}
use archivon.Access.Jobs.Creating.{create_job-Exclusive}
use archivon.Access.Jobs.Sealing.Again.{IsSealed, load_folder_policy_again}
use archivon.Access.Jobs.Permission.{IsPermission, create_job_permitted}
use archivon.Access.Jobs.Answer.{IsAnswer, create_job_answers}
use archivon.Access.Jobs.Canceling.{cancel_job-Exclusive, cancel_job_audit, cancel_audit}
use archivon.Access.Reconcile.{Oracle, reconcile, running_jobs, complete_running_jobs}
use archivon.Access.Reconcile.Invariant.{reconcile-Exclusive}
use archivon.Access.Reconcile.Completion.{completes_with_proof, reconcile_work_conserving, HasProof}
use archivon.Access.Examples.{
  example_folder, eleven, example_env, example_policy, example_job, example_session, example_db,
  example_user, busy, occupied, busy-Exclusive, occupied-Exclusive, running_job_row, queued_job_row,
}

-- Each reading of the clock is two seconds after the start; the new session is 20.
abbrev oracle : Oracle
oracle = record { clock = λ k. seconds 2; fresh = λ k. 20 }

reconcile_opens_test :
    count (live 1 (seconds 2)) (reconcile example_env oracle 1 (seconds 2) busy).1.sessions ≡ 1
unfolding reconcile timeout_jobs promote_next_queued update_where expire_sessions expire_rows
    best_attempt_progress normalize_positive_int valid_share_progress open_session_for_completed_job
    new_dav_credentials cancel_queued_jobs
reconcile_opens_test = refl

create_job_uuid_test : is_uuid_like eleven ≡ true
unfolding is_uuid_like
create_job_uuid_test = refl

reconcile-Exclusive_example :
    Exclusive 1 (seconds 2) (reconcile example_env oracle 1 (seconds 2) busy).1
reconcile-Exclusive_example =
    reconcile-Exclusive example_env oracle 1 (seconds 2) busy (omega arith)
      (busy-Exclusive (seconds 2))

abbrev credentials : DavCredentials
credentials = record {
  username = codes "dav_0000000000004000800000000000000b";
  password_hash = 0 ∷ codes "Dav1-x";
  password_ciphertext = codes "Dav1-x";
  password_nonce = 1 ∷ [];
}

credentials_test : new_dav_credentials example_env 1 20 ≡ ok credentials
unfolding new_dav_credentials
credentials_test = refl

proved : HasProof running_job_row 0 (seconds 2) busy
unfolding normalize_positive_int valid_share_progress
proved = (1, omega arith, omega arith, omega arith, omega arith)

completes_with_proof_example :
    (HasProof running_job_row 0 (seconds 2) busy
      → let (result, after) = complete_running_jobs example_env oracle 1 busy in
        (result ≡ ok tt)
        × (count (live 1 (seconds 2)) after.sessions ≡ 1)
        × (count (runs 1) after.jobs ≡ 0)
        × (count (waits 1) after.jobs ≡ 0))
    × (¬ HasProof running_job_row 0 (seconds 2) busy
        → complete_running_jobs example_env oracle 1 busy ≡ (ok tt, busy))
unfolding running_jobs
completes_with_proof_example =
    completes_with_proof example_env oracle busy running_job_row 0 credentials
      (busy-Exclusive (seconds 2)) refl refl (omega arith) credentials_test

reconcile_done : (reconcile example_env oracle 1 (seconds 2) busy).0 ≡ ok tt
unfolding reconcile timeout_jobs promote_next_queued update_where expire_sessions expire_rows
    best_attempt_progress normalize_positive_int valid_share_progress open_session_for_completed_job
    new_dav_credentials cancel_queued_jobs
reconcile_done = refl

reconcile_work_conserving_example :
    let e = (reconcile example_env oracle 1 (seconds 2) busy).1 in
    (count (waits 1) e.jobs ≡ 0)
    ⊎ ((0 < count (runs 1) e.jobs) ⊎ (0 < count (live 1 (seconds 2)) e.sessions))
reconcile_work_conserving_example =
    reconcile_work_conserving example_env oracle 1 (seconds 2) busy reconcile_done

abbrev two_waiting : Db
two_waiting = example_db (example_job 12 JobStatus.queued 9 none ∷ queued_job_row ∷ []) [] none

promote_starts_oldest_example :
    (next : JobRow) × Memᴰ next two_waiting.jobs
    × (waits 1 next ≡ true)
    × Least (λ j. j.created_at) (waits 1) two_waiting.jobs next
    × (promote_next_queued 1 5 two_waiting ≡ record two_waiting {
      jobs = update_where (λ j. j.id == next.id) (start 5) two_waiting.jobs;
    })
unfolding can_start_job
promote_starts_oldest_example = promote_starts_oldest 1 5 two_waiting refl (omega arith)

close_session_hands_over_example :
    let after = (close_session example_env example_user eleven 5 [] occupied).1 in
    (count (live 1 5) after.sessions ≡ 0)
    × ((count (waits 1) occupied.jobs ≡ 0) ⊎ (0 < count (runs 1) after.jobs))
unfolding is_uuid_like
close_session_hands_over_example =
    close_session_hands_over example_env example_user eleven 5 [] occupied (occupied-Exclusive 5)
      refl (omega arith) (omega arith)

close_session_as_admin_hands_over_example :
    let after = (close_session_as_admin example_env example_user eleven 5 [] occupied).1 in
    Exclusive 1 5 after
    × (count (live 1 5) after.sessions ≡ 0)
    × ((count (waits 1) occupied.jobs ≡ 0) ⊎ (0 < count (runs 1) after.jobs))
unfolding is_uuid_like
close_session_as_admin_hands_over_example =
    close_session_as_admin_hands_over example_env example_user eleven 5 [] occupied
      (example_session 11 (seconds 1000)) (occupied-Exclusive 5) refl refl

cancel_job-Exclusive_example :
    Exclusive 1 5 (cancel_job example_env example_user eleven 5 [] busy).1
cancel_job-Exclusive_example =
    cancel_job-Exclusive example_env example_user eleven 5 [] busy (busy-Exclusive 5)

cancel_done :
    (cancel_job example_env example_user eleven 5 [] busy).0
    ≡ ok (record queued_job_row {
      status = canceled;
      failure_reason = some client_canceled;
      finished_at = some 5;
    })
unfolding cancel_job is_uuid_like update_where promote_next_queued
cancel_done = refl

cancel_job_audit_example :
    (cancel_job example_env example_user eleven 5 [] busy).1.audit
    ≡ cancel_audit example_user 11 [] canceled ∷ []
cancel_job_audit_example = cancel_job_audit example_env example_user eleven 5 [] busy _ cancel_done

abbrev free : Db
free = example_db (running_job_row ∷ []) [] (some (codes "forged"))

free-Exclusive : Exclusive 1 5 free
free-Exclusive = record {
  distinct = λ i. ground arith;
  one_running = omega arith;
  one_active = omega arith;
  not_both = inl refl;
}

create_job-Exclusive_example :
    Exclusive 1 5 (create_job example_env example_user eleven 30 5 [] free).1
create_job-Exclusive_example =
    create_job-Exclusive example_env example_user eleven 30 5 [] free free-Exclusive refl

-- The folder has no seal yet, and the user no job.
abbrev unused : Db
unused = example_db [] [] none

create_job_answers_example :
    (j : JobRow) × IsAnswer example_user 11 []
      (create_job example_env example_user eleven 30 5 [] unused)
      j
unfolding can_unlock is_uuid_like load_folder_policy load_policy normalize_policy trim_space text_eq
    seal_payload with_folder active_session_exists
create_job_answers_example =
    create_job_answers example_env example_user eleven 30 5 [] unused _ _ refl refl refl refl refl
      (omega arith)

abbrev stranger : User
stranger = record example_user { id = 6 }

create_job_permitted_example :
    ((p : PermissionRow) × Memᴰ p free.permissions
      × (p.can_unlock_and_access ≡ true)
      × IsPermission stranger 11 5 free.folders p)
    ⊎ (((create_job example_env stranger eleven 30 5 [] free).1 ≡ free)
        × (((create_job example_env stranger eleven 30 5 [] free).0
              ≡ err (access_error 404 "folder_not_found"))
            ⊎ ((create_job example_env stranger eleven 30 5 [] free).0
                ≡ err (access_error 403 "unlock_not_allowed"))))
create_job_permitted_example = create_job_permitted example_env stranger eleven 30 5 [] free

best_attempt_reaches_example :
    (100 ≤ (best_attempt_progress 1 10 0 60 3 (seconds 2) busy.shares).work)
    ↔ HasProof running_job_row 0 (seconds 2) busy
best_attempt_reaches_example =
    best_attempt_reaches 1 10 0 60 3 (seconds 2) busy.shares 100 (omega arith)

validate_policy_iff_example : (validate_policy example_policy ≡ none) ↔ IsValid example_policy
validate_policy_iff_example = validate_policy_iff example_policy

-- A key service with one seal for every policy, and the tables once the folder has it.
abbrev stamp : Kms
stamp = record {
  seal = λ p. ok (codes "seal");
  encrypt_metadata = λ text tenant session. ok (tenant ∷ [], text);
}

abbrev stamping : Env
stamping = record example_env { kms = some stamp }

abbrev stamped : Db
stamped = example_db [] [] (some (codes "seal"))

abbrev folder_policy : Policy
folder_policy = with_folder (normalize_policy example_policy) (example_folder none)

load_folder_policy_again_example :
    IsSealed stamping stamp 1 eleven folder_policy stamped
    × (load_folder_policy stamping 1 eleven stamped ≡ ok (folder_policy, stamped))
unfolding load_folder_policy load_policy normalize_policy trim_space seal_payload with_folder
    update_where
load_folder_policy_again_example =
    load_folder_policy_again stamping stamp 1 eleven unused stamped folder_policy refl
      (λ payload t e. clean t e) refl
  where
    clean :
        (t : Text)
        → Path (Result Failure Text) (ok (codes "seal")) (ok t)
        → (trim_space t ≡ t) × (is_empty t ≡ false)
    clean t e = subst (λ u. (trim_space u ≡ u) × (is_empty u ≡ false)) (same e) (refl, refl)
      where
        same : {u : Text} → Path (Result Failure Text) (ok (codes "seal")) (ok u) → codes "seal" ≡ u
        same h = cc
