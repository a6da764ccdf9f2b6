-- ===== src/Auth/Types.antt =====
-- The records of internal/auth and the columns of its tables.
use git_castle.Prelude.{ℕ, String}

pub record User : Type 0 where
  pub id : ℕ
  pub username : String
  pub created_at : ℕ

pub record Profile : Type 0 where
  pub username : String
  pub display_name : String
  pub bio : String
  pub location : String
  pub website : String
  pub joined_at : ℕ

pub record UserRow : Type 0 where
  pub id : ℕ
  pub username : String
  pub password_hash : String
  pub created_at : ℕ
  pub display_name : String
  pub bio : String
  pub location : String
  pub website : String

pub record SessionRow : Type 0 where
  pub token_hash : String
  pub user_id : ℕ
  pub expires_at : ℕ

pub record PermissionRow : Type 0 where
  pub repository_id : ℕ
  pub username : String
  pub role : String
