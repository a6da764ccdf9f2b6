-- ===== src/Secrets/Types.antt =====
-- The records of internal/secrets/secrets.go and the columns of its table.
use git_castle.Prelude.{ℕ, String}

pub record Secret : Type 0 where
  pub name : String
  pub created_at : ℕ

pub record SecretRow : Type 0 where
  pub repository_id : ℕ
  pub name : String
  pub ciphertext : String
  pub nonce : String
  pub created_at : ℕ
