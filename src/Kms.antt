-- ===== src/Kms.antt =====
-- internal/kms/service.go: the master key on disk, the keys that come from it, the wrapping of data
-- keys, the encryption of metadata, and seals.
pub mod Env
pub mod Keys
pub mod Wrapping
pub mod Sealing
pub mod Slots
pub mod Examples
mod Witnesses
