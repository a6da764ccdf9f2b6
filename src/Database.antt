-- ===== src/Database.antt =====
-- internal/database: the schema migrations.
pub mod Migrate
pub mod Rerun
