-- ===== src/Gitserve.antt =====
-- Git over smart HTTP: internal/gitserve, and its wiring in cmd/gitcastle/main.go.
pub mod Request
pub mod Access
pub mod Checks
pub mod Authorised
pub mod Served
pub mod Backend
pub mod Cgi
pub mod Unchecked
pub mod GitSuffix
