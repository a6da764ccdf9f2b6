-- ===== src/Gitdata.antt =====
-- internal/gitdata: what the web interface shows of a repository.
pub mod Repo
pub mod Commits
pub mod Printed
