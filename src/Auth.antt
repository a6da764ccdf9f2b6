-- ===== src/Auth.antt =====
-- Accounts, sessions, permissions and profiles: internal/auth.
pub mod Types
pub mod Crypto
pub mod Accounts
pub mod Sessions
pub mod Permissions
pub mod Profiles
pub mod Login
pub mod SessionLaws
pub mod Roles
