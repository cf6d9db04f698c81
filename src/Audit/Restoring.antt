-- ===== src/Audit/Restoring.antt =====
-- restoreBackup of internal/audit.
pub mod Parting
pub mod Inserting
pub mod Cleaning
pub mod Return
use archivon.Prelude.{
  ℕ, Bool, true, false, not, ◌&&◌, ◌||◌, Option, none, some, List, [], ◌∷◌, ◌++◌, Result, ok, err,
  ◌>>=◌, or_fail, find?,
}
use archivon.Text.Trim.{Text, codes, text_eq, is_empty}
use archivon.Store.Table.{update_where}
use archivon.Audit.Events.{
  Event, AuditError, checksum_mismatch, backup_not_found, backup_already_restored, other,
  insert_events,
}
use archivon.Audit.Backups.{
  AuditEnv, AuditDb, Caller, BackupContent, BackupRow, as_other, guard, backup_format,
  encode_backup, audit_event,
}

module _ (env : AuditEnv) where
  abbrev pub row_key : (tenant id : Text) → BackupRow → Bool
  row_key tenant id r = text_eq r.tenant tenant && text_eq r.id id

  -- restoreResponse
  pub record RestoreResponse : Type 0 where
    pub backup_id : Text
    pub checksum : Text
    pub restored_events : ℕ

  abbrev pub is_unused : BackupRow → Bool
  is_unused r = elim r.restored_at [ none ↦ true | some t ↦ false ]

  -- The transaction of restoreBackup.
  unfoldable pub restore_tx :
      Caller
      → BackupContent
      → (checksum audit_id ip : Text) (now : ℕ) → AuditDb
      → Result AuditError (RestoreResponse × AuditDb)
  unfolding text_eq insert_events update_where
  restore_tx user content checksum audit_id ip now d = do
    id ← or_fail (env.to_uuid content.backup_id) (other "invalid uuid")
    row ← or_fail (find? (row_key user.tenant id) d.backups) backup_not_found
    _ ← guard (text_eq row.backup_type (codes "file_activity")) backup_not_found
    _ ← guard (is_unused row) backup_already_restored
    _ ← guard (text_eq row.checksum checksum) checksum_mismatch
    inserted ← insert_events d.users user.tenant content.events (d.events, 0)
    let event =
        audit_event env user audit_id (codes "audit.file_activity.restored") content.backup_id ip
          (env.restored_details content.backup_id checksum inserted.1) now
    ok (
      record { backup_id = content.backup_id; checksum = checksum; restored_events = inserted.1 },
      record d {
        events = inserted.0 ++ (event ∷ []);
        backups =
            update_where (row_key user.tenant id)
              (λ (r : BackupRow). record r { restored_at = some now }) d.backups;
      },
    )

  -- The checks of restoreBackup before its transaction: the content and its checksum.
  unfoldable pub check_backup : Caller → (raw : Text) → Result AuditError (BackupContent × Text)
  unfolding text_eq encode_backup
  check_backup user raw = do
    payload ← as_other (env.unmarshal_payload raw)
    _ ←
        guard
          (text_eq payload.content.format backup_format
            && (not (is_empty payload.content.backup_id)
                && text_eq payload.content.tenant user.tenant))
          backup_not_found
    checksum ← encode_backup env payload.content
    _ ← guard (is_empty payload.checksum || text_eq payload.checksum checksum) checksum_mismatch
    ok (payload.content, checksum)

  -- restoreBackup
  unfoldable pub restore_backup :
      Caller
      → (raw audit_id ip : Text) (now : ℕ) → AuditDb
      → Result AuditError RestoreResponse × AuditDb
  unfolding check_backup restore_tx
  restore_backup user raw audit_id ip now d = elim (check_backup user raw) [
    | err e ↦ (err e, d)
    | ok (content, checksum) ↦ elim (restore_tx user content checksum audit_id ip now d) [
      | err e ↦ (err e, d)
      | ok (response, after) ↦ (ok response, after)
    ]
  ]
