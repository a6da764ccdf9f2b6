-- ===== src/Db.antt =====
-- The PostgreSQL database of GitCastle (internal/database/migrations) as the stores see it: one
-- list of rows for each table, a counter for each BIGSERIAL column, the time that `NOW()` gives,
-- and the outages to come.
use git_castle.Prelude.{ℕ, Bool, false, List, [], ◌∷◌}
use git_castle.Auth.Types.{UserRow, SessionRow, PermissionRow}
use git_castle.Repos.Types.{Repository}
use git_castle.Collab.Types.{IssueRow, CommentRow, PullRow, ReviewRow, ProtectionRow}
use git_castle.Webhooks.Types.{HookRow, DeliveryRow}
use git_castle.Ci.Types.{JobRow}
use git_castle.Secrets.Types.{SecretRow}
use git_castle.Audit.Types.{Entry}

pub record Db : Type 0 where
  pub users : List UserRow
  pub sessions : List SessionRow
  pub permissions : List PermissionRow
  pub repositories : List Repository
  pub issues : List IssueRow
  pub comments : List CommentRow
  pub pulls : List PullRow
  pub reviews : List ReviewRow
  pub protections : List ProtectionRow
  pub hooks : List HookRow
  pub deliveries : List DeliveryRow
  pub jobs : List JobRow
  pub secrets : List SecretRow
  pub audit_log : List Entry
  pub user_seq : ℕ
  pub repository_seq : ℕ
  pub comment_seq : ℕ
  pub pull_seq : ℕ
  pub hook_seq : ℕ
  pub delivery_seq : ℕ
  pub job_seq : ℕ
  pub audit_seq : ℕ
  pub clock : ℕ
  -- For each statement to come, whether the driver reports an error instead of running it.
  pub outages : List Bool

abbrev pub empty : Db
empty = record {
  users = [];
  sessions = [];
  permissions = [];
  repositories = [];
  issues = [];
  comments = [];
  pulls = [];
  reviews = [];
  protections = [];
  hooks = [];
  deliveries = [];
  jobs = [];
  secrets = [];
  audit_log = [];
  user_seq = 1;
  repository_seq = 1;
  comment_seq = 1;
  pull_seq = 1;
  hook_seq = 1;
  delivery_seq = 1;
  job_seq = 1;
  audit_seq = 1;
  clock = 0;
  outages = [];
}

unfoldable pub down : List Bool → Bool
down [] = false
down (b ∷ _) = b

unfoldable pub later : List Bool → List Bool
later [] = []
later (_ ∷ bs) = bs
