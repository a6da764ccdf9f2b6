-- ===== src/Tests/Httpapi.antt =====
-- Witnesses for internal/httpapi.
use git_castle.Prelude.{false, ◌≡◌, any, refl}
use git_castle.Tests.Samples.{all_work, alice, server, castle, pull, approval, server-IsConsistent}
use git_castle.Db.{Db}
use git_castle.Httpapi.Pulls.{merge_pull_request_route, Merger}
use git_castle.Httpapi.Request.{parse_positive, Request}
use git_castle.Repos.Service.{make, create, World, Os, valid_name, get}
use git_castle.Errors.{Result, ok}
use git_castle.Prelude.{true, some, find?, [], ◌∷◌}
use git_castle.Repos.Store.{get_row}
use git_castle.Httpapi.Merge.{merge_route_correct, Outcome}
use git_castle.Repos.Types.{Repository, CreateInput}
use git_castle.Httpapi.Repositories.{create_repository, with_owner}
use git_castle.Httpapi.Session.{login}
use git_castle.Auth.Crypto.{plain_crypto}
use git_castle.Httpapi.Creator.{creator_is_admin, IsCreated}
use git_castle.Httpapi.LoginLaws.{login_lem, SignsIn}
use git_castle.Auth.Accounts.{user_of}

abbrev request : Request
request = record {
  owner = "alice";
  name = "castle";
  number = "1";
  branch = "";
  state = "";
  user = record { id = 3; username = "dave"; created_at = 8 };
}

abbrev tables : Db
tables = server "open" (approval ∷ []) []

abbrev git : Merger
git owner name number source target user = ok "c0ffee"

merge_route_correct_example :
    Outcome git request tables castle 1
      (pull "open")
      (merge_pull_request_route (some git) true request tables)
unfolding get get_row valid_name parse_positive git_castle.Prelude.Number.digits_from find?
    git_castle.Prelude.Text.all_chars git_castle.Prelude.Text.rune_count git_castle.Exec.statement
    git_castle.Db.down git_castle.Db.later git_castle.Prelude.Text.cut_prefix
merge_route_correct_example =
    merge_route_correct git request tables castle 1 (pull "open") refl refl refl
      (server-IsConsistent "open" []) refl

abbrev quiet : Db
quiet = server "open" [] []

login_lem_example :
    let after =
      login plain_crypto true (some "token") "10.0.0.1" (some ("alice", "correct horse")) quiet in
    (plain_crypto.matches alice.password_hash "correct horse" ≡ true
      → SignsIn plain_crypto "token" 9 (user_of alice) after)
    × (plain_crypto.matches alice.password_hash "correct horse" ≡ false
        → (after.0.status ≡ 401) × (after.0.effects ≡ []) × (after.1.sessions ≡ quiet.sessions))
unfolding find? any
login_lem_example =
    login_lem plain_crypto "token" alice refl true "10.0.0.1" "alice" "correct horse" quiet refl
      refl refl refl

abbrev before_creation : World
before_creation = record { db = quiet; disk = castle.path ∷ [] }

abbrev tower : CreateInput
tower = record { owner = ""; name = "tower" }

abbrev made : Result Repository × World
made = create all_work "/srv/git" (with_owner request.user tower) before_creation

abbrev tower_row : Repository
tower_row = record {
  id = 2;
  owner = "dave";
  name = "tower";
  path = "/srv/git/dave/tower.git";
  created_at = 9;
}

creator_is_admin_example : IsCreated request.user tower_row made.1 (
    create_repository all_work "/srv/git" true "10.0.0.1" request.user (some tower) before_creation)
unfolding create make valid_name git_castle.Prelude.Text.all_chars
    git_castle.Prelude.Text.rune_count any git_castle.Repos.Service.repository_path
    git_castle.Repos.Store.create_row git_castle.Exec.statement git_castle.Db.down
    git_castle.Repos.Store.insert_repository git_castle.Db.later
creator_is_admin_example =
    creator_is_admin request.user tower_row made.1 all_work "/srv/git" true "10.0.0.1" tower
      before_creation refl refl
