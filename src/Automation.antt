-- ===== src/Automation.antt =====
-- internal/automation.
pub mod Fanout
pub mod Hook
pub mod Quoting
pub mod Jobs
