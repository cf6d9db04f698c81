-- ===== src/Access/Examples.antt =====
-- Tests of internal/access on small tables, and the theorems of this component at concrete inputs.
use archivon.Prelude.{
  ℕ, refl, true, false, Option, none, some, List, [], ◌∷◌, inl, inr, pos, ok, arith,
}
use archivon.Text.Trim.{Text, codes}
use archivon.Store.{
  Db, JobRow, SessionRow, ShareRow, FolderRow, FolderStatus, JobStatus, queued, running,
  SessionStatus, client, seconds,
}
use archivon.Access.Policy.{Policy, one}
use archivon.Access.Env.{Env, User}
use archivon.Access.Queue.Exclusive.{Exclusive}

-- A text in the form of a uuid. Its number, in the example's database, is 11.
abbrev pub eleven : Text
eleven = codes "00000000-0000-4000-8000-00000000000b"

abbrev pub example_policy : Policy
example_policy = record {
  required_hashrate = pos one;
  min_workers = pos 1;
  tolerance = pos 10000000;
  proof_window_seconds = pos 60;
  max_proof_attempts = pos 3;
  job_timeout_minutes = pos 15;
  session_ttl_minutes = pos 30;
  allowed_session_ttl_minutes = [];
  single_active_session = true;
  heartbeat_enabled = false;
  upload_pow_required = false;
}

abbrev pub example_env : Env
example_env = record {
  to_uuid = λ _. 11;
  of_uuid = λ n. eleven;
  kms = some (record {
    seal = λ p. ok (p.required_hashrate ∷ p.tolerance ∷ []);
    encrypt_metadata = λ text tenant session. ok (tenant ∷ [], text);
  });
  new_dav_password = ok (codes "Dav1-x");
  bcrypt = λ text. ok (0 ∷ text);
  unmarshal_policy = λ _. ok example_policy;
  marshal_policy = λ _. ok [];
}

abbrev pub example_job : (id : ℕ) → JobStatus → (created : ℕ) → (started : Option ℕ) → JobRow
example_job id status created started = record {
  id = id;
  tenant = 1;
  user = 5;
  folder = 11;
  status = status;
  required_hashrate = one;
  required_work = 100;
  observed_hashrate = none;
  min_workers = 1;
  tolerance = 10000000;
  proof_window_seconds = 60;
  max_proof_attempts = 3;
  timeout_seconds = 180;
  session_ttl_minutes = 30;
  failure_reason = none;
  created_at = created;
  started_at = started;
  finished_at = none;
}

abbrev pub example_session : (id expires : ℕ) → SessionRow
example_session id expires = record {
  id = id;
  tenant = 1;
  user = 5;
  folder = 12;
  pow_job = none;
  status = SessionStatus.active;
  opened_at = 0;
  expires_at = expires;
  closed_at = none;
  close_reason = none;
  dav = none;
}

abbrev pub example_share : ShareRow
example_share = record {
  tenant = 1;
  job = 10;
  worker = 3;
  share_hash = [];
  share_target = [];
  work = 150;
  is_valid = true;
  rejection_reason = none;
  submitted_at = 1000000;
}

abbrev pub example_folder : (seal : Option Text) → FolderRow
example_folder seal = record {
  id = 11;
  tenant = 1;
  status = FolderStatus.active;
  required_hashrate = one;
  tolerance = 10000000;
  proof_window_seconds = 60;
  max_proof_attempts = 3;
  policy_seal = seal;
}

abbrev pub example_db : List JobRow → List SessionRow → (seal : Option Text) → Db
example_db jobs sessions seal = record {
  users = [];
  user_sessions = [];
  folders = example_folder seal ∷ [];
  permissions =
      record { tenant = 1; user = 5; folder = 11; can_unlock_and_access = true; expires_at = none }
      ∷ [];
  jobs = jobs;
  shares = example_share ∷ [];
  sessions = sessions;
  audit = [];
  settings = λ _. some [];
}

abbrev pub example_user : User
example_user = record { id = 5; tenant = 1; role = client }

abbrev pub running_job_row : JobRow
running_job_row = example_job 10 running 0 (some 0)

abbrev pub queued_job_row : JobRow
queued_job_row = example_job 11 queued 1 none

-- One job runs and one waits.
abbrev pub busy : Db
busy = example_db (running_job_row ∷ queued_job_row ∷ []) [] none

-- A session is open, and a job waits for it to end.
abbrev pub occupied : Db
occupied = example_db (queued_job_row ∷ []) (example_session 11 (seconds 1000) ∷ []) none

pub busy-Exclusive : (now : ℕ) → Exclusive 1 now busy
busy-Exclusive now = record {
  distinct = λ i. ground arith;
  one_running = omega arith;
  one_active = omega arith;
  not_both = inl refl;
}

pub occupied-Exclusive : (now : ℕ) → Exclusive 1 now occupied
occupied-Exclusive now = record {
  distinct = λ i. ground arith;
  one_running = omega arith;
  one_active = omega arith;
  not_both = inr refl;
}
