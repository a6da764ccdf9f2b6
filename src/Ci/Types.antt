-- ===== src/Ci/Types.antt =====
-- The records of internal/ci and the columns of its table.
use git_castle.Prelude.{ℕ, String, Option}
use git_castle.Prelude.Int.{ℤ}

pub record Job : Type 0 where
  pub id : ℕ
  pub commit_hash : String
  pub branch : String
  pub trigger_kind : String
  pub trigger_ref : String
  pub status : String  -- queued | running | success | failed
  pub output : String
  pub exit_code : Option ℤ
  pub created_at : ℕ
  pub started_at : Option ℕ
  pub finished_at : Option ℕ

pub record JobRow : Type 0 where
  pub repository_id : ℕ
  pub job : Job
