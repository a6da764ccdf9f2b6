-- ===== src/Httpapi.antt =====
-- The HTTP API: internal/httpapi.
pub mod Reply
pub mod Request
pub mod Issues
pub mod Pulls
pub mod Merge
pub mod Session
pub mod LoginLaws
pub mod Protection
pub mod Repositories
pub mod Creator
pub mod Automation
pub mod Notify
pub mod Pushed
pub mod Hardening
pub mod Content
pub mod Subscribed
pub mod OwnProfile
pub mod Router
pub mod Guarded
