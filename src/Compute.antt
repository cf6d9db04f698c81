-- ===== src/Compute.antt =====
-- internal/compute: the Stratum gateway, its work and the shares of its workers.
pub mod Hex
pub mod Version
pub mod Coinbase
pub mod Share
pub mod Policy
pub mod Gateway
pub mod Stratum
mod Examples
mod Witnesses
