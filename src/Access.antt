-- ===== src/Access.antt =====
-- internal/access: the proof-of-work queue and the access sessions.
pub mod Policy
pub mod Env
pub mod Dav
pub mod Queue
pub mod Progress
pub mod Sessions
pub mod Jobs
pub mod Reconcile
pub mod Examples
mod Witnesses
