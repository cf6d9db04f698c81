-- ===== src/Store/Rows.antt =====
-- Rows of the tables, one record for each, with the columns that the Go code names.
use archivon.Prelude.{ℕ, ◌*◌, Bool, true, false, Option, some, List, if◌then◌else◌}
use archivon.Text.Trim.{Text}

-- time.Second and interval '1 second', in microseconds.
abbrev pub seconds : ℕ → ℕ
seconds n = n * 1000000

abbrev pub minutes : ℕ → ℕ
minutes n = n * 60000000

abbrev pub hours : ℕ → ℕ
hours n = n * 3600000000

-- users.role; `other_role` is any other text in a request.
pub data Role : Type 0 where
  super_admin admin client other_role : Role

pub record UserRow : Type 0 where
  pub id : ℕ
  pub tenant : ℕ
  pub role : Role
  pub username : Text
  pub lower_username : Text
  pub password_hash : Option Text
  pub must_change_password : Bool
  pub is_blocked : Bool
  pub description : Option Text
  pub last_login_at : Option ℕ

pub data AuthStatus : Type 0 where
  active revoked expired : AuthStatus

-- user_sessions
pub record UserSession : Type 0 where
  pub id : ℕ
  pub tenant : ℕ
  pub user : ℕ
  pub token_hash : Text
  pub status : AuthStatus
  pub ip_address : Text
  pub created_at : ℕ
  pub expires_at : ℕ
  pub revoked_at : Option ℕ
  pub role_at_login : Role

pub data FolderStatus : Type 0 where
  active deleted : FolderStatus

-- protected_folders, with its folder policy. Tolerance is in millionths of a percent.
pub record FolderRow : Type 0 where
  pub id : ℕ
  pub tenant : ℕ
  pub status : FolderStatus
  pub required_hashrate : ℕ
  pub tolerance : ℕ
  pub proof_window_seconds : ℕ
  pub max_proof_attempts : ℕ
  pub policy_seal : Option Text

-- folder_permissions
pub record PermissionRow : Type 0 where
  pub tenant : ℕ
  pub user : ℕ
  pub folder : ℕ
  pub can_unlock_and_access : Bool
  pub expires_at : Option ℕ

pub data JobStatus : Type 0 where
  queued running succeeded failed canceled timeout : JobStatus

pub data FailureReason : Type 0 where
  client_canceled timed_out active_session_opened user_deleted : FailureReason

-- pow_jobs
pub record JobRow : Type 0 where
  pub id : ℕ
  pub tenant : ℕ
  pub user : ℕ
  pub folder : ℕ
  pub status : JobStatus
  pub required_hashrate : ℕ
  pub required_work : ℕ
  pub observed_hashrate : Option ℕ
  pub min_workers : ℕ
  pub tolerance : ℕ
  pub proof_window_seconds : ℕ
  pub max_proof_attempts : ℕ
  pub timeout_seconds : ℕ
  pub session_ttl_minutes : ℕ
  pub failure_reason : Option FailureReason
  pub created_at : ℕ
  pub started_at : Option ℕ
  pub finished_at : Option ℕ

-- pow_shares
pub record ShareRow : Type 0 where
  pub tenant : ℕ
  pub job : ℕ
  pub worker : ℕ
  pub share_hash : Text
  pub share_target : Text
  pub work : ℕ
  pub is_valid : Bool
  pub rejection_reason : Option Text
  pub submitted_at : ℕ

pub data SessionStatus : Type 0 where
  active closed expired revoked : SessionStatus

pub data CloseReason : Type 0 where
  client_closed admin_closed ttl_expired user_deleted : CloseReason

-- The four dav_ columns of access_sessions.
pub record DavCredentials : Type 0 where
  pub username : Text
  pub password_hash : Text
  pub password_ciphertext : Text
  pub password_nonce : Text

-- access_sessions
pub record SessionRow : Type 0 where
  pub id : ℕ
  pub tenant : ℕ
  pub user : ℕ
  pub folder : ℕ
  pub pow_job : Option ℕ
  pub status : SessionStatus
  pub opened_at : ℕ
  pub expires_at : ℕ
  pub closed_at : Option ℕ
  pub close_reason : Option CloseReason
  pub dav : Option DavCredentials

pub data Severity : Type 0 where
  info warning critical : Severity

-- audit_events.event_type with the details that the services attach.
pub data AuditEvent : Type 0 where
  pow_job_created : JobStatus → AuditEvent
  pow_job_canceled : (previous_status : JobStatus) → AuditEvent
  session_closed : CloseReason → AuditEvent
  session_admin_closed : (closed_user folder : ℕ) → AuditEvent
  session_opened : (pow_job valid_work canceled_queued_jobs : ℕ) → AuditEvent
  pow_policy_updated : AuditEvent
  super_admin_created user_created : AuditEvent
  login_failed_credentials login_failed_blocked : AuditEvent
  previous_session_revoked : (revoked_sessions previous_session : ℕ) → AuditEvent
  login_succeeded : (existing_session : Option ℕ) → AuditEvent
  logged_out : AuditEvent
  password_changed password_change_failed password_reset : AuditEvent
  user_blocked user_unblocked : AuditEvent
  user_deleted : (revoked_sessions canceled_jobs deleted_pow_jobs deleted_rights : ℕ) → AuditEvent
  session_policy_updated : ℕ → AuditEvent

-- audit_events
pub record AuditRow : Type 0 where
  pub tenant : ℕ
  pub actor : Option ℕ
  pub event : AuditEvent
  pub target : Option ℕ
  pub severity : Severity
  pub ip_address : Text

-- The keys of system_settings.
pub data SettingKey : Type 0 where
  pow_access_policy auth_session_policy compute_policy audit_policy : SettingKey

abbrev pub same_key : SettingKey → SettingKey → Bool
same_key pow_access_policy pow_access_policy = true
same_key auth_session_policy auth_session_policy = true
same_key compute_policy compute_policy = true
same_key audit_policy audit_policy = true
same_key _ _ = false

pub record Db : Type 0 where
  pub users : List UserRow
  pub user_sessions : List UserSession
  pub folders : List FolderRow
  pub permissions : List PermissionRow
  pub jobs : List JobRow
  pub shares : List ShareRow
  pub sessions : List SessionRow
  pub audit : List AuditRow
  -- system_settings: the json text under each key
  pub settings : SettingKey → Option Text

-- INSERT ... ON CONFLICT (key) DO UPDATE SET value
abbrev pub put_setting : SettingKey → Text → Db → Db
put_setting k v d = record d { settings = λ j. if same_key k j then some v else d.settings j }
