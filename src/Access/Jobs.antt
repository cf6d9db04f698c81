-- ===== src/Access/Jobs.antt =====
-- Jobs of internal/access: loadPolicy, loadFolderPolicy with ensureFolderPoWPolicySeal, canUnlock,
-- createJob and cancelJob. Each operation is given the time of its clock readings and the id that
-- the database generates.
pub mod Creating
pub mod Sealing
pub mod Answer
pub mod Permission
pub mod Canceling
use archivon.Prelude.{
  ℕ, ◌+◌, ◌*◌, ◌/◌, Bool, true, false, not, ◌&&◌, ◌||◌, Option, none, some, List, [], ◌∷◌, ◌++◌, ℤ,
  pos, pos_part, ltb, leb, ◌==◌, if◌then◌else◌, count, find?, Result, ok, err,
}
use archivon.Text.Trim.{Text, trim_space, text_eq, is_empty}
use archivon.Text.Uuid.{is_uuid_like}
use archivon.Store.{
  Db, FolderRow, FolderStatus, PermissionRow, JobRow, SessionRow, JobStatus, queued, running,
  succeeded, canceled, client_canceled, pow_access_policy, info, warning, pow_job_created,
  pow_job_canceled,
}
use archivon.Store.Table.{update_where, first_by}
use archivon.Store.Tx.{
  Failure, access_error, no_rows, failure, Outcome, Tx, ◌>>=◌, ◌>>◌, pure, fail, gets, modify,
  require, or_fail, insert_audit, transaction, then_read,
}
use archivon.Access.Policy.{
  Policy, normalize_policy, required_work, default_proof_window_seconds, default_max_proof_attempts,
}
use archivon.Access.Env.{Env, Kms, User, SealPayload}
use archivon.Access.Queue.{is_open, live, can_start_job, active_session_exists, promote_next_queued}
use archivon.Access.Sessions.{lift}

-- canUnlock: the row of a permission that is in force, on an active folder.
abbrev pub in_force : ℕ → Option ℕ → Bool
in_force now none = true
in_force now (some end) = ltb now end

abbrev pub is_active_folder : FolderStatus → Bool
is_active_folder FolderStatus.active = true
is_active_folder _ = false

abbrev pub folder_key : (tenant id : ℕ) → FolderRow → Bool
folder_key tenant id f = f.tenant == tenant && (f.id == id && is_active_folder f.status)

-- JOIN protected_folders pf ON pf.id = fp.protected_folder_id ... pf.status = 'active'
abbrev pub folder_is_active : (id : ℕ) → FolderRow → Bool
folder_is_active id f = f.id == id && is_active_folder f.status

unfoldable pub permits : (user : User) (folder now : ℕ) → List FolderRow → PermissionRow → Bool
permits user folder now folders p =
    p.tenant == user.tenant
    && (p.user == user.id
        && (p.folder == folder
            && (ltb 0 (count (folder_is_active folder) folders) && in_force now p.expires_at)))

unfoldable pub can_unlock : User → (folder now : ℕ) → Db → Option Bool
unfolding permits
can_unlock user folder now d = elim (find? (permits user folder now d.folders) d.permissions) [
  | none ↦ none
  | some p ↦ some p.can_unlock_and_access
]

-- loadPolicy
unfoldable pub load_policy : Env → Tx Policy
load_policy env = do
  row ← gets (λ d. d.settings pow_access_policy)
  raw ← or_fail row no_rows
  policy ← lift (env.unmarshal_policy raw)
  pure (normalize_policy policy)

-- %.2f of a percentage
abbrev pub hundredths : ℕ → ℕ
hundredths n = n / 10000

unfoldable pub seal_payload : (tenant : ℕ) (folder : Text) → Policy → SealPayload
seal_payload tenant folder p = record {
  tenant = tenant;
  folder = folder;
  required_hashrate = pos_part p.required_hashrate;
  tolerance = hundredths (pos_part p.tolerance);
  proof_window_seconds = pos_part p.proof_window_seconds;
  max_proof_attempts = pos_part p.max_proof_attempts;
}

-- strings.TrimSpace(storedSeal.String)
abbrev pub stored_text : Option Text → Text
stored_text none = []
stored_text (some t) = trim_space t

-- pow_policy_seal IS NULL OR pow_policy_seal = ''
abbrev pub is_blank : Option Text → Bool
is_blank none = true
is_blank (some t) = is_empty t

-- The end of ensureFolderPoWPolicySeal: a folder with no seal gets one, another seal is refused.
unfoldable pub store_or_compare :
    (tenant folder : ℕ) (expected : Text) (stored : Option Text) → Tx (Unit {0})
store_or_compare tenant folder expected stored =
    if is_empty (stored_text stored)
    then modify (λ d. record d {
      folders =
          update_where (λ (f : FolderRow). folder_key tenant folder f && is_blank f.policy_seal)
            (λ f. record f { policy_seal = some expected }) d.folders;
    })
    else require (text_eq (stored_text stored) expected) (failure "folder_pow_policy_seal_mismatch")

-- ensureFolderPoWPolicySeal
unfoldable pub ensure_policy_seal :
    Env → (tenant : ℕ) (folder : Text) → Policy → (stored : Option Text) → Tx (Unit {0})
unfolding seal_payload store_or_compare
ensure_policy_seal env tenant folder policy stored = do
  kms ← or_fail env.kms (failure "kms_not_configured")
  expected ← lift (kms.seal (seal_payload tenant folder policy))
  store_or_compare tenant (env.to_uuid folder) expected stored

-- loadFolderPolicy: the folder's four numbers over the global policy.
unfoldable pub with_folder : Policy → FolderRow → Policy
with_folder p f = normalize_policy (record p {
  required_hashrate = pos f.required_hashrate;
  tolerance = pos f.tolerance;
  proof_window_seconds = pos f.proof_window_seconds;
  max_proof_attempts = pos f.max_proof_attempts;
})

unfoldable pub load_folder_policy : Env → (tenant : ℕ) (folder : Text) → Tx Policy
unfolding load_policy with_folder ensure_policy_seal
load_folder_policy env tenant folder = do
  global ← load_policy env
  row ← gets (λ d. find? (folder_key tenant (env.to_uuid folder)) d.folders)
  f ← or_fail row no_rows
  let policy = with_folder global f
  ensure_policy_seal env tenant folder policy f.policy_seal
  pure policy

-- activeSessionForFolder and existingOpenJob
abbrev pub live_for_folder : User → (folder now : ℕ) → SessionRow → Bool
live_for_folder user folder now s =
    live user.tenant now s && (s.user == user.id && s.folder == folder)

abbrev pub open_for_folder : User → (folder : ℕ) → JobRow → Bool
open_for_folder user folder j =
    j.tenant == user.tenant && (j.user == user.id && (j.folder == folder && is_open j.status))

-- timeoutSeconds of createJob
unfoldable pub timeout_seconds_of : Policy → ℕ
timeout_seconds_of p =
    let seconds = pos_part p.proof_window_seconds * pos_part p.max_proof_attempts in
    if leb seconds 0 then default_proof_window_seconds * default_max_proof_attempts else seconds

unfoldable pub new_job : User → (folder : ℕ) → Policy → (starts : Bool) → (id now : ℕ) → JobRow
unfolding timeout_seconds_of
new_job user folder policy starts id now = record {
  id = id;
  tenant = user.tenant;
  user = user.id;
  folder = folder;
  status = if starts then running else queued;
  required_hashrate = pos_part policy.required_hashrate;
  required_work = required_work policy;
  observed_hashrate = none;
  min_workers = pos_part policy.min_workers;
  tolerance = pos_part policy.tolerance;
  proof_window_seconds = pos_part policy.proof_window_seconds;
  max_proof_attempts = pos_part policy.max_proof_attempts;
  timeout_seconds = timeout_seconds_of policy;
  session_ttl_minutes = pos_part policy.session_ttl_minutes;
  failure_reason = none;
  created_at = now;
  started_at = if starts then some now else none;
  finished_at = none;
}

-- The transaction of createJob.
unfoldable pub insert_job_tx :
    User → (folder : ℕ) → Policy → (id now : ℕ) (ip : Text) → Tx (Unit {0})
unfolding new_job
insert_job_tx user folder policy id now ip = do
  held ← gets (active_session_exists user.tenant now)
  require (not held) (access_error 409 "active_session_must_be_closed")
  starts ← gets (can_start_job user.tenant now)
  still_held ← gets (active_session_exists user.tenant now)
  require (starts || not still_held) (access_error 409 "active_session_must_be_closed")
  modify (λ d. record d { jobs = d.jobs ++ (new_job user folder policy starts id now ∷ []) })
  insert_audit (record {
    tenant = user.tenant;
    actor = some user.id;
    event = pow_job_created (if starts then running else queued);
    target = some id;
    severity = info;
    ip_address = ip;
  })

-- What createJob returns: a session that is open already, an open job, or the new one.
pub data Created : Type 0 where
  existing_session : SessionRow → Created
  existing_job : JobRow → Created
  new : JobRow → Created

abbrev pub job_key : (tenant id : ℕ) → JobRow → Bool
job_key tenant id j = j.tenant == tenant && j.id == id

unfoldable pub insert_job :
    User → (folder : ℕ) → Policy → (id now : ℕ) (ip : Text) → Db → Outcome Created
unfolding insert_job_tx transaction
insert_job user folder policy id now ip d =
    then_read (transaction (insert_job_tx user folder policy id now ip) d)
      (λ e. elim (find? (job_key user.tenant id) e.jobs) [ none ↦ none | some j ↦ some (new j) ])

-- createJob after the permission and the policy.
unfoldable pub find_or_insert_job :
    User → (folder : ℕ) → Policy → (id now : ℕ) (ip : Text) → Db → Outcome Created
unfolding insert_job
find_or_insert_job user folder policy id now ip d =
    elim (find? (live_for_folder user folder now) d.sessions) [
      | some s ↦ (ok (existing_session s), d)
      | none ↦ elim (first_by (λ (j : JobRow). j.created_at) (open_for_folder user folder) d.jobs) [
        | some j ↦ (ok (existing_job j), d)
        | none ↦ insert_job user folder policy id now ip d
      ]
    ]

unfoldable pub create_allowed_job :
    Env → User → (folder : Text) (id now : ℕ) (ip : Text) → Db → Outcome Created
unfolding load_folder_policy find_or_insert_job
create_allowed_job env user folder id now ip d =
    elim (load_folder_policy env user.tenant folder d) [
      | err e ↦ (err e, d)
      | ok (policy, d') ↦ find_or_insert_job user (env.to_uuid folder) policy id now ip d'
    ]

-- createJob
unfoldable pub create_job :
    Env → User → (folder_id : Text) (id now : ℕ) (ip : Text) → Db → Outcome Created
unfolding can_unlock create_allowed_job
create_job env user folder_id id now ip d =
    if not (is_uuid_like folder_id)
    then (err (access_error 404 "folder_not_found"), d)
    else elim (can_unlock user (env.to_uuid folder_id) now d) [
      | none ↦ (err (access_error 404 "folder_not_found"), d)
      | some false ↦ (err (access_error 403 "unlock_not_allowed"), d)
      | some true ↦ create_allowed_job env user folder_id id now ip d
    ]

-- cancelJob. RETURNING status gives the status after the update.
abbrev pub cancelable : User → (id : ℕ) → JobRow → Bool
cancelable user id j =
    j.tenant == user.tenant && (j.user == user.id && (j.id == id && is_open j.status))

abbrev pub cancel_at : ℕ → JobRow → JobRow
cancel_at now j = record j {
  status = canceled;
  finished_at = some now;
  failure_reason = some client_canceled;
}

unfoldable pub cancel_job_tx : User → (id now : ℕ) (ip : Text) → Tx (Unit {0})
cancel_job_tx user id now ip = do
  row ← gets (λ d. find? (cancelable user id) d.jobs)
  j ← or_fail row (access_error 404 "job_not_found_or_closed")
  modify (λ d. record d { jobs = update_where (cancelable user id) (cancel_at now) d.jobs })
  let returned = cancel_at now j
  insert_audit (record {
    tenant = user.tenant;
    actor = some user.id;
    event = pow_job_canceled returned.status;
    target = some id;
    severity = warning;
    ip_address = ip;
  })
  modify (promote_next_queued user.tenant now)

unfoldable pub cancel_job : Env → User → (job_id : Text) (now : ℕ) (ip : Text) → Db → Outcome JobRow
unfolding cancel_job_tx transaction
cancel_job env user job_id now ip d =
    if is_uuid_like job_id
    then then_read (transaction (cancel_job_tx user (env.to_uuid job_id) now ip) d)
        (λ e. find? (job_key user.tenant (env.to_uuid job_id)) e.jobs)
    else (err (access_error 404 "job_not_found"), d)
