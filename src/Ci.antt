-- ===== src/Ci.antt =====
-- internal/ci.
pub mod Types
pub mod Store
pub mod Executor
pub mod DockerRunner
pub mod Outcome
