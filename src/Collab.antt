-- ===== src/Collab.antt =====
-- Collaboration: internal/collab.
pub mod Types
pub mod Sequence
pub mod Issues
pub mod Pulls
pub mod Reviews
pub mod Protection
pub mod Trace
pub mod Consistency
pub mod Lifecycle
pub mod Approvals
