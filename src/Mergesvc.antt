-- ===== src/Mergesvc.antt =====
-- internal/mergesvc: the git merge of a pull request.
pub mod Service
pub mod Kept
