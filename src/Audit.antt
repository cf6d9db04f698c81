-- ===== src/Audit.antt =====
-- internal/audit/service.go: the clean-up of the events on files, with its backup, and the restoring of
-- a backup.
pub mod Events
pub mod Policy
pub mod Backups
pub mod Restoring
pub mod Handlers
mod Witnesses
