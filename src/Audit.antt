-- ===== src/Audit.antt =====
-- internal/audit.
pub mod Types
pub mod Store
