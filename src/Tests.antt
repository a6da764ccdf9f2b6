-- ===== src/Tests.antt =====
-- The theorems at concrete inputs.
pub mod Samples
pub mod Collab
pub mod Auth
pub mod Httpapi
pub mod Git
pub mod Middleware
pub mod Webhooks
pub mod Ci
pub mod Automation
pub mod Scanning
pub mod Storage
pub mod Secrets
pub mod Database
pub mod Gitdata
pub mod Mergesvc
pub mod Routes
