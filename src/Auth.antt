-- ===== src/Auth.antt =====
-- internal/auth: users, their roles and their login sessions.
pub mod Env
pub mod Settings
pub mod Roles
pub mod Users
pub mod Login
pub mod Passwords
pub mod Creating
pub mod Deleting
mod Witnesses
