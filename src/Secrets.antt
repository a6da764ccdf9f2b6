-- ===== src/Secrets.antt =====
-- internal/secrets: deployment secrets, encrypted in the database.
pub mod Types
pub mod Store
pub mod Sealing
