-- ===== src/Audit/Backups.antt =====
-- Backups of internal/audit: loadPolicy, encodeBackup and cleanupFileActivity. The ids that the database generates are arguments.
use archivon.Prelude.{
  ℕ, Bool, true, false, Option, none, some, List, [], ◌∷◌, ◌++◌, Result, ok, err, ◌>>=◌,
  if◌then◌else◌, length, String, pos,
}
use archivon.Text.Trim.{Text, codes}
use archivon.Compute.Hex.{encode_to_string}
use archivon.Audit.Policy.{CleanupPolicy, normalize_cleanup_policy}
use archivon.Audit.Events.{
  Event, CleanupScope, AuditError, no_clear_all, other, HasKey, query_file_activity_events,
  delete_events,
}

-- backupPayload without its checksum, which is backupChecksumPayload
pub record BackupContent : Type 0 where
  pub format : Text
  pub backup_id : Text
  pub tenant : Text
  pub created_at : ℕ
  pub created_by : Text
  pub scope : CleanupScope
  pub event_count : ℕ
  pub events : List Event

pub record BackupPayload : Type 0 where
  pub content : BackupContent
  pub checksum : Text

-- A row of log_cleanup_backups
pub record BackupRow : Type 0 where
  pub id : Text
  pub tenant : Text
  pub backup_type : Text
  pub checksum : Text
  pub event_count : ℕ
  pub restored_at : Option ℕ

-- The tables: the users are their ids, and the setting is the row of the clean-up policy.
pub record AuditDb : Type 0 where
  pub events : List Event
  pub backups : List BackupRow
  pub users : List Text
  pub setting : Option Text

-- json, SHA-256, and the bound on the parameters of a statement. `to_uuid` reads a uuid and prints it.
pub record AuditEnv : Type 0 where
  pub has_key : HasKey
  pub max_parameters : ℕ
  pub sha256 : Text → Text
  pub marshal_content : BackupContent → Result String Text
  pub marshal_payload : BackupPayload → Result String Text
  pub unmarshal_payload : Text → Result String BackupPayload
  pub unmarshal_policy : Text → Result String CleanupPolicy
  pub to_uuid : Text → Option Text
  pub cleaned_details : BackupPayload → Text
  pub restored_details : (backup checksum : Text) (restored : ℕ) → Text

-- auth.User
pub record Caller : Type 0 where
  pub id : Text
  pub tenant : Text

abbrev pub as_other {ℓ} : {A : Type ℓ} → Result String A → Result AuditError A
as_other (ok a) = ok a
as_other (err x) = err (other x)

abbrev pub guard : Bool → AuditError → Result AuditError (Unit {0})
guard true e = ok tt
guard false e = err e

abbrev pub backup_format : Text
backup_format = codes "archivon.audit.file_activity.backup.v1"

module _ (env : AuditEnv) where
  -- loadPolicy
  unfoldable pub load_cleanup_policy : AuditDb → Result AuditError CleanupPolicy
  unfolding normalize_cleanup_policy
  load_cleanup_policy d = elim d.setting [
    | none ↦ ok (
        normalize_cleanup_policy (record {
          retention_days = pos 30;
          allow_clear_all = false;
          backup_required = false;
          restore_requires_checksum = false;
          backup_storage = [];
          protected_cleanup_events = false;
        }))
    | some raw ↦ do
      policy ← as_other (env.unmarshal_policy raw)
      ok (normalize_cleanup_policy policy)
  ]

  -- The checksum of encodeBackup.
  unfoldable pub encode_backup : BackupContent → Result AuditError Text
  unfolding encode_to_string
  encode_backup content = do
    raw ← as_other (env.marshal_content content)
    ok (encode_to_string (env.sha256 raw))

  -- `OlderThanDays` is 0: everything goes.
  abbrev pub clears_all : CleanupScope → Bool
  clears_all scope = elim scope.older_than_days [ some ℕ.zero ↦ true | _ ↦ false ]

  unfoldable pub may_clear_all : CleanupScope → AuditDb → Result AuditError (Unit {0})
  unfolding load_cleanup_policy
  may_clear_all scope d =
      if clears_all scope
      then (do policy ← load_cleanup_policy d; guard policy.allow_clear_all no_clear_all)
      else ok tt

  abbrev pub content_of :
      Caller → CleanupScope → (backup_id : Text) (now : ℕ) → List Event → BackupContent
  content_of user scope backup_id now events = record {
    format = backup_format;
    backup_id = backup_id;
    tenant = user.tenant;
    created_at = now;
    created_by = user.id;
    scope = scope;
    event_count = length events;
    events = events;
  }

  abbrev pub audit_event : Caller → (id event_type backup_id ip details : Text) (now : ℕ) → Event
  audit_event user id event_type backup_id ip details now = record {
    id = id;
    tenant = user.tenant;
    actor = some user.id;
    event_type = event_type;
    target_type = codes "log_cleanup_backup";
    target_id = some backup_id;
    severity = codes "warning";
    ip_address = ip;
    details = details;
    created_at = now;
  }

  abbrev pub backup_of : BackupContent → (checksum : Text) → BackupPayload
  backup_of content checksum = record { content = content; checksum = checksum }

  abbrev pub backup_row : Caller → BackupPayload → BackupRow
  backup_row user payload = record {
    id = payload.content.backup_id;
    tenant = user.tenant;
    backup_type = codes "file_activity";
    checksum = payload.checksum;
    event_count = payload.content.event_count;
    restored_at = none;
  }

  -- The transaction of cleanupFileActivity: the backup, and the tables after it.
  unfoldable pub cleanup_tx :
      Caller
      → CleanupScope
      → (backup_id audit_id ip : Text) (now : ℕ) → AuditDb
      → Result AuditError (BackupPayload × AuditDb)
  unfolding query_file_activity_events encode_backup delete_events
  cleanup_tx user scope backup_id audit_id ip now d = do
    let events = query_file_activity_events env.has_key user.tenant scope now d.events
    let content = content_of user scope backup_id now events
    checksum ← encode_backup content
    let payload = backup_of content checksum
    _ ← as_other (env.marshal_payload payload)
    kept ← delete_events env.max_parameters events d.events
    let event =
        audit_event user audit_id (codes "audit.file_activity.cleaned") backup_id ip
          (env.cleaned_details payload) now
    ok (
      payload,
      record d {
        events = kept ++ (event ∷ []);
        backups = d.backups ++ (backup_row user payload ∷ []);
      },
    )

  -- cleanupFileActivity: the downloaded text, and the tables after Commit or Rollback
  unfoldable pub cleanup_file_activity :
      Caller
      → CleanupScope
      → (backup_id audit_id ip : Text) (now : ℕ) → AuditDb
      → Result AuditError (BackupPayload × Text) × AuditDb
  unfolding may_clear_all cleanup_tx
  cleanup_file_activity user scope backup_id audit_id ip now d = elim (may_clear_all scope d) [
    | err e ↦ (err e, d)
    | ok _ ↦ elim (cleanup_tx user scope backup_id audit_id ip now d) [
      | err e ↦ (err e, d)
      | ok (payload, after) ↦ elim (env.marshal_payload payload) [
        | err x ↦ (err (other x), d)
        | ok raw ↦ (ok (payload, raw), after)
      ]
    ]
  ]
