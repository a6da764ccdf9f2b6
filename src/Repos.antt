-- ===== src/Repos.antt =====
-- Repositories: internal/repos.
pub mod Types
pub mod Store
pub mod Service
pub mod Disk
