-- ===== src/Collab/Types.antt =====
-- The records of internal/collab/collab.go and the columns of its tables.
use git_castle.Prelude.{ℕ, String, Bool, Option, List}
use git_castle.Prelude.Int.{ℤ}

pub record Issue : Type 0 where
  pub number : ℕ
  pub title : String
  pub body : String
  pub author : String
  pub state : String  -- open | closed
  pub created_at : ℕ
  pub updated_at : ℕ

pub record Comment : Type 0 where
  pub id : ℕ
  pub author : String
  pub body : String
  pub created_at : ℕ

pub record PullRequest : Type 0 where
  pub number : ℕ
  pub title : String
  pub body : String
  pub author : String
  pub state : String  -- open | merged | closed
  pub source_branch : String
  pub target_branch : String
  pub merge_commit : Option String
  pub created_at : ℕ
  pub updated_at : ℕ

pub record Review : Type 0 where
  pub reviewer : String
  pub verdict : String  -- approved | changes_requested | commented
  pub body : String
  pub created_at : ℕ

pub record BranchProtection : Type 0 where
  pub branch : String
  pub required_approvals : ℤ
  pub allow_force_push : Bool

-- The text that Go builds with `Sprintf` is kept as its two numbers.
pub data Blocker : Type 0 where
  not_open : Blocker
  requires : ℤ → ℕ → Blocker

pub record MergeCheck : Type 0 where
  pub mergable : Bool
  pub blockers : List Blocker
  pub required_approvals : ℤ
  pub current_approvals : ℕ

pub record IssueRow : Type 0 where
  pub repository_id : ℕ
  pub issue : Issue

pub record CommentRow : Type 0 where
  pub repository_id : ℕ
  pub subject_type : String
  pub subject_number : ℕ
  pub comment : Comment

pub record PullRow : Type 0 where
  pub id : ℕ
  pub repository_id : ℕ
  pub pull : PullRequest

pub record ReviewRow : Type 0 where
  pub pull_request_id : ℕ
  pub review : Review

pub record ProtectionRow : Type 0 where
  pub repository_id : ℕ
  pub protection : BranchProtection
