-- ===== src/Repos/Types.antt =====
-- The records of internal/repos/model.go.
use git_castle.Prelude.{ℕ, String}

pub record Repository : Type 0 where
  pub id : ℕ
  pub owner : String
  pub name : String
  pub path : String
  pub created_at : ℕ

pub record CreateInput : Type 0 where
  pub owner : String
  pub name : String
