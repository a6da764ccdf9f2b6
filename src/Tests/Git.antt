-- ===== src/Tests/Git.antt =====
-- Witnesses for internal/repos and internal/gitserve.
use git_castle.Tests.Samples.{server, alice, castle, admin}
use git_castle.Auth.Types.{UserRow}
use git_castle.Db.{empty, Db}
use git_castle.Gitserve.Request.{wants_write, parse_owner_repo, GitRequest}
use git_castle.Prelude.{
  false, ap, sym, false≢true, ◌⊎◌, ◌≡◌, ◌==◌, refl, arith, true, some, count, [], find?, any,
}
use git_castle.Repos.Disk.{create-Stays, Stays, IsStocked}
use git_castle.Repos.Service.{valid_name, create, World, Os}
use git_castle.Auth.Permissions.{has_at_least}
use git_castle.Gitserve.Authorised.{serve_git_authorised, IsSignedIn}
use git_castle.Auth.Crypto.{plain_crypto}
use git_castle.Gitserve.Checks.{HasRole}
use git_castle.Gitserve.Access.{access_of, required_role, backend, serve_git}
use git_castle.Gitserve.Served.{serve_git_served}
use git_castle.Gitserve.Backend.{path_info}
use git_castle.Prelude.Text.{contains_text, has_suffix}
use git_castle.Gitserve.GitSuffix.{git_suffix_optional}

-- `git config` fails.
abbrev config_fails : Os
config_fails = record {
  mkdir_works = λ _. true;
  stat_works = λ _. true;
  git_init_works = λ _. true;
  git_init_leaves = λ _. false;
  git_config_works = λ _. false;
  remove_all_works = λ _. true;
}

abbrev fresh : World
fresh = record { db = empty; disk = [] }

fresh-IsStocked : IsStocked fresh
unfolding any count
fresh-IsStocked = record {
  stored = λ path row. absurd (false≢true row);
  one_name = λ owner name. ground arith;
}

create-Stays_example :
    Stays config_fails "/srv/git/alice/castle.git" fresh
      (create config_fails "/srv/git" (record { owner = "alice"; name = "castle" }) fresh).1
unfolding git_castle.Repos.Service.repository_path
create-Stays_example = create-Stays config_fails "/srv/git" _ fresh fresh-IsStocked

-- What `git push` sends last: the service stands in the path, not in the query.
abbrev push : GitRequest
push = record {
  method = "POST";
  path = "/git/alice/castle.git/git-receive-pack";
  service = "";
  basic_auth = some ("alice", "correct horse");
}

abbrev tables : Db
tables = server "open" [] []

signed_in : IsSignedIn plain_crypto tables push alice
unfolding find?
signed_in = ("alice", "correct horse", refl, refl, (refl, refl))

has_role : HasRole tables 1 "alice" "castle" "read"
unfolding find? has_at_least
has_role = (castle, alice, admin, refl, refl, refl, refl)

serve_git_served_example : serve_git plain_crypto push tables ≡ (backend, tables)
unfolding parse_owner_repo valid_name wants_write git_castle.Prelude.Text.split
    git_castle.Prelude.Text.trim git_castle.Prelude.Text.all_chars
    git_castle.Prelude.Text.rune_count git_castle.Prelude.Text.trim_suffix
serve_git_served_example =
    serve_git_served plain_crypto tables refl push alice signed_in refl refl has_role

serve_git_authorised_example :
    (row : UserRow) × IsSignedIn plain_crypto tables push row
    × ((((parse_owner_repo push.path).0 == "") ≡ true)
        ⊎ HasRole tables row.id
            (parse_owner_repo push.path).0
            (parse_owner_repo push.path).1
            (required_role (access_of push)))
serve_git_authorised_example =
    serve_git_authorised plain_crypto push tables tables serve_git_served_example

-- The same request with the second "/", which alice needs no grant for
abbrev hidden : GitRequest
hidden = record push { path = "/git//bob/private.git/git-upload-pack" }

git_suffix_optional_example :
    path_info "/git" "/git/alice/castle/info/refs"
    ≡ path_info "/git" "/git/alice/castle.git/info/refs"
unfolding has_suffix contains_text git_castle.Prelude.Text.any_char
git_suffix_optional_example =
    git_suffix_optional "alice" "castle" "info/refs"
      (λ p. false≢true (sym (ap (λ s. s == "alice") p))) refl refl refl
