-- ===== src/Tests/Gitdata.antt =====
-- Witnesses for internal/gitdata.
use git_castle.Gitdata.Commits.{parse_commits, Commit}
use git_castle.Prelude.Text.{trim_right, any_char}
use git_castle.Prelude.{refl, ◌≡◌, ◌∷◌, []}
use git_castle.Gitdata.Printed.{parse_commits-log_of, log_of}

abbrev root_commit : Commit
root_commit = record {
  hash = "c0ffee";
  author = "Alice A.";
  email = "alice@example.org";
  date = "2026-01-02T03:04:05Z";
  message = "Dig the moat\n\nIt is deep.";
  parents = [];
}

abbrev merge_commit : Commit
merge_commit = record root_commit {
  hash = "decade";
  message = "Merge moat";
  parents = "c0ffee" ∷ "facade" ∷ [];
}

parse_commits-log_of_example :
    parse_commits (log_of (merge_commit ∷ root_commit ∷ [])) ≡ merge_commit ∷ root_commit ∷ []
unfolding any_char trim_right
parse_commits-log_of_example = parse_commits-log_of (merge_commit ∷ root_commit ∷ []) (
  record {
    hash = (refl, refl, (refl, refl));
    author = (refl, refl);
    email = (refl, refl);
    date = (refl, refl);
    parents = ((refl, refl, (refl, refl)), ((refl, refl, (refl, refl)), tt));
    message = (refl, refl);
    ended = refl;
  },
  (
    record {
      hash = (refl, refl, (refl, refl));
      author = (refl, refl);
      email = (refl, refl);
      date = (refl, refl);
      parents = tt;
      message = (refl, refl);
      ended = refl;
    },
    tt,
  ),
)
