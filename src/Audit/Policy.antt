-- ===== src/Audit/Policy.antt =====
-- The clean-up policy of internal/audit: normalizePolicy and cleanupScopeFromRequest.
use archivon.Prelude.{
  ℕ, Bool, true, Option, none, some, Result, ok, err, if◌then◌else◌, String, ℤ, pos, negsuc,
  pos_part, ltb_ℤ,
}
use archivon.Text.Trim.{Text, codes}
use archivon.Audit.Events.{CleanupScope, AuditError, other}

-- CleanupPolicy
pub record CleanupPolicy : Type 0 where
  pub retention_days : ℤ
  pub allow_clear_all : Bool
  pub backup_required : Bool
  pub restore_requires_checksum : Bool
  pub backup_storage : Text
  pub protected_cleanup_events : Bool

unfoldable pub normalize_cleanup_policy : CleanupPolicy → CleanupPolicy
normalize_cleanup_policy p = record {
  retention_days = if ltb_ℤ p.retention_days (pos 0) then pos 0 else p.retention_days;
  allow_clear_all = true;
  backup_required = true;
  restore_requires_checksum = true;
  backup_storage = codes "download_only";
  protected_cleanup_events = true;
}

-- cleanupRequest; `before` is the parsed time, or its parsing error
pub record CleanupRequest : Type 0 where
  pub older_than_days : Option ℤ
  pub before : Option (Result String ℕ)

abbrev pub days_or : Option ℤ → (before : Option ℕ) → ℤ → Result AuditError CleanupScope
days_or (some (pos n)) before retention = ok (record { older_than_days = some n; before = before })
days_or (some (negsuc n)) before retention = err (other "invalid_retention_days")
days_or none (some t) retention = ok (record { older_than_days = none; before = some t })
days_or none none retention =
    ok (record { older_than_days = some (pos_part retention); before = none })

-- cleanupScopeFromRequest; the retention of a policy is not negative
unfoldable pub cleanup_scope_from_request :
    CleanupRequest → CleanupPolicy → Result AuditError CleanupScope
cleanup_scope_from_request req p = elim req.before [
  | none ↦ days_or req.older_than_days none p.retention_days
  | some (err x) ↦ err (other "invalid_before")
  | some (ok t) ↦ days_or req.older_than_days (some t) p.retention_days
]
