-- ===== src/Tests/Samples.antt =====
-- A small server: one account, one repository with a protected branch, one pull request.
use git_castle.Prelude.{[], ◌∷◌, none, false, true, count, arith, String, List, Bool}
use git_castle.Prelude.Int.{pos}
use git_castle.Db.{Db, empty}
use git_castle.Auth.Types.{UserRow, PermissionRow}
use git_castle.Repos.Types.{Repository}
use git_castle.Repos.Service.{Os}
use git_castle.Collab.Types.{PullRow, ReviewRow, ProtectionRow}
use git_castle.Collab.Sequence.{max_number}
use git_castle.Collab.Consistency.{IsConsistent}

-- An operating system whose calls all work
abbrev pub all_work : Os
all_work = record {
  mkdir_works = λ _. true;
  stat_works = λ _. true;
  git_init_works = λ _. true;
  git_init_leaves = λ _. false;
  git_config_works = λ _. true;
  remove_all_works = λ _. true;
}

abbrev pub alice : UserRow
alice = record {
  id = 1;
  username = "alice";
  password_hash = "correct horse";
  created_at = 5;
  display_name = "";
  bio = "";
  location = "";
  website = "";
}

abbrev pub castle : Repository
castle = record {
  id = 1;
  owner = "alice";
  name = "castle";
  path = "/srv/git/alice/castle.git";
  created_at = 6;
}

abbrev pub pull : String → PullRow
pull state = record {
  id = 1;
  repository_id = 1;
  pull = record {
    number = 1;
    title = "Moat";
    body = "";
    author = "bob";
    state = state;
    source_branch = "moat";
    target_branch = "main";
    merge_commit = none;
    created_at = 7;
    updated_at = 7;
  };
}

abbrev pub approval : ReviewRow
approval = record {
  pull_request_id = 1;
  review = record { reviewer = "carol"; verdict = "approved"; body = ""; created_at = 8 };
}

abbrev pub main_rule : ProtectionRow
main_rule = record {
  repository_id = 1;
  protection = record { branch = "main"; required_approvals = pos 1; allow_force_push = false };
}

abbrev pub admin : PermissionRow
admin = record { repository_id = 1; username = "alice"; role = "admin" }

-- The pull request in a state, with some reviews.
abbrev pub server : String → List ReviewRow → List Bool → Db
server state reviews outages = record empty {
  users = alice ∷ [];
  repositories = castle ∷ [];
  permissions = admin ∷ [];
  pulls = pull state ∷ [];
  reviews = reviews;
  protections = main_rule ∷ [];
  user_seq = 2;
  repository_seq = 2;
  pull_seq = 2;
  clock = 9;
  outages = outages;
}

pub server-IsConsistent :
    (state : String) (outages : List Bool) → IsConsistent (server state (approval ∷ []) outages)
unfolding count max_number
server-IsConsistent state outages = (
  λ repo number. ground arith,
  λ repo number. ground arith,
  λ id. ground arith,
  λ id reviewer. ground arith,
  λ repo branch. ground arith,
)
