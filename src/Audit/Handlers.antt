-- ===== src/Audit/Handlers.antt =====
-- handleSettings, handleCleanupFileActivity and handleRestore of internal/audit. The user of the session
-- is an argument, `none` where there is none; so is a decoded body.
use archivon.Prelude.{
  ℕ, ◌*◌, true, Option, none, some, [], ◌∷◌, ◌++◌, Result, ok, err, if◌then◌else◌, String, ℤ, take,
}
use archivon.Text.Trim.{Text, codes, trim_space, is_empty}
use archivon.Audit.Events.{
  AuditError, no_clear_all, checksum_mismatch, backup_not_found, backup_already_restored, other,
}
use archivon.Audit.Policy.{
  CleanupPolicy, normalize_cleanup_policy, CleanupRequest, cleanup_scope_from_request,
}
use archivon.Audit.Backups.{
  AuditEnv, AuditDb, Caller, BackupPayload, load_cleanup_policy, cleanup_file_activity, audit_event,
}
use archivon.Audit.Restoring.{RestoreResponse, restore_backup}

-- The status and the error of an answer.
abbrev pub Answer : Type 0 → Type 0
Answer A = Result (ℕ × String) A

-- The answer to an error of restoreBackup.
abbrev pub restore_answer : AuditError → ℕ × String
restore_answer checksum_mismatch = (400, "checksum_mismatch")
restore_answer backup_not_found = (404, "backup_not_found")
restore_answer backup_already_restored = (409, "backup_already_restored")
restore_answer no_clear_all = (500, "backup_restore_failed")
restore_answer (other x) = (500, "backup_restore_failed")

abbrev pub cleanup_answer : AuditError → ℕ × String
cleanup_answer no_clear_all = (400, "clear_all_not_allowed")
cleanup_answer checksum_mismatch = (500, "audit_cleanup_failed")
cleanup_answer backup_not_found = (500, "audit_cleanup_failed")
cleanup_answer backup_already_restored = (500, "audit_cleanup_failed")
cleanup_answer (other x) = (500, "audit_cleanup_failed")

-- The text of an error of cleanupScopeFromRequest.
abbrev pub scope_answer : AuditError → ℕ × String
scope_answer (other x) = (400, x)
scope_answer no_clear_all = (400, "clear_all_not_allowed")
scope_answer checksum_mismatch = (400, "checksum_mismatch")
scope_answer backup_not_found = (400, "backup_not_found")
scope_answer backup_already_restored = (400, "backup_already_restored")

abbrev pub answered :
    {A : Type 0} → (AuditError → ℕ × String) → Result AuditError A × AuditDb → Answer A × AuditDb
answered name (ok a, d) = (ok a, d)
answered name (err e, d) = (err (name e), d)

-- io.LimitReader(r.Body, 20<<20)
abbrev pub body_limit : ℕ
body_limit = 20 * 1048576

module _ (env : AuditEnv) where
  -- handleCleanupFileActivity
  unfoldable pub handle_cleanup_file_activity :
      Option Caller
      → Option CleanupRequest
      → (backup_id audit_id ip : Text) (now : ℕ) → AuditDb
      → Answer (BackupPayload × Text) × AuditDb
  unfolding load_cleanup_policy cleanup_scope_from_request cleanup_file_activity
  handle_cleanup_file_activity none req backup_id audit_id ip now d =
      (err (401, "not_authenticated"), d)
  handle_cleanup_file_activity (some user) none backup_id audit_id ip now d =
      (err (400, "invalid_json"), d)
  handle_cleanup_file_activity (some user) (some req) backup_id audit_id ip now d =
      elim (load_cleanup_policy env d) [
        | err e ↦ (err (500, "audit_policy_load_failed"), d)
        | ok policy ↦ elim (cleanup_scope_from_request req policy) [
          | err e ↦ (err (scope_answer e), d)
          | ok scope ↦
              answered cleanup_answer
                (cleanup_file_activity env user scope backup_id audit_id ip now d)
        ]
      ]

  -- handleRestore of a body that is read without an error
  unfoldable pub handle_restore :
      Option Caller
      → (body audit_id ip : Text) (now : ℕ) → AuditDb
      → Answer (RestoreResponse env) × AuditDb
  unfolding trim_space restore_backup
  handle_restore none body audit_id ip now d = (err (401, "not_authenticated"), d)
  handle_restore (some user) body audit_id ip now d =
      let raw = take body_limit body in
      if is_empty (trim_space raw)
      then (err (400, "backup_required"), d)
      else answered restore_answer (restore_backup env user raw audit_id ip now d)

  -- handleSettings, GET
  unfoldable pub handle_settings_get : Option Caller → AuditDb → Answer CleanupPolicy
  unfolding load_cleanup_policy
  handle_settings_get none d = err (401, "not_authenticated")
  handle_settings_get (some user) d = elim (load_cleanup_policy env d) [
    | err e ↦ err (500, "audit_policy_load_failed")
    | ok policy ↦ ok policy
  ]

  abbrev pub new_policy : (retention_days : ℤ) → CleanupPolicy
  new_policy retention_days = record {
    retention_days = retention_days;
    allow_clear_all = true;
    backup_required = true;
    restore_requires_checksum = true;
    backup_storage = codes "download_only";
    protected_cleanup_events = true;
  }

  -- handleSettings, POST of a retention; `marshal` is json.Marshal and `details` the details of the event
  unfoldable pub handle_settings_post :
      (marshal : CleanupPolicy → Result String Text) (details : CleanupPolicy → Text)
      → Option Caller
      → (retention_days : Option ℤ) → (audit_id ip : Text) (now : ℕ) → AuditDb
      → Answer CleanupPolicy × AuditDb
  unfolding normalize_cleanup_policy
  handle_settings_post marshal details none req audit_id ip now d =
      (err (401, "not_authenticated"), d)
  handle_settings_post marshal details (some user) none audit_id ip now d =
      (err (400, "invalid_json"), d)
  handle_settings_post marshal details (some user) (some days) audit_id ip now d =
      let policy = normalize_cleanup_policy (new_policy days) in
      elim (marshal policy) [
        | err x ↦ (err (500, "audit_policy_encode_failed"), d)
        | ok raw ↦ (
          ok policy,
          record d {
            setting = some raw;
            events =
                d.events
                ++ (record (audit_event env user audit_id (codes "audit.cleanup_policy.updated") []
                      ip (details policy) now) {
                        target_type = codes "system_setting";
                        target_id = none;
                      }
                    ∷ []);
          },
        )
      ]
