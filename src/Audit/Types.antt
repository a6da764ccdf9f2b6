-- ===== src/Audit/Types.antt =====
-- The records of internal/audit/audit.go and the columns of its table. The details are kept as
-- the encoded JSON text.
use git_castle.Prelude.{ℕ, String, Option}

pub record Entry : Type 0 where
  pub id : ℕ
  pub time : ℕ
  pub actor : String
  pub action : String
  pub target : String
  pub details : Option String
  pub remote_ip : String
