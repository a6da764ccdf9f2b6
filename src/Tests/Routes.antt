-- ===== src/Tests/Routes.antt =====
-- Witnesses for the routes on pushes, webhooks and profiles.
use git_castle.Db.{Db}
use git_castle.Httpapi.Automation.{create_webhook_route, HookInput}
use git_castle.Httpapi.Hardening.{update_profile_route, ProfileInput}
use git_castle.Httpapi.Notify.{notify_push_route, HookPushPayload}
use git_castle.Httpapi.Request.{Request}
use git_castle.Prelude.{
  none, ◌⊎◌, true, false, ◌==◌, Option, ◌∷◌, if◌then◌else◌, ◌++◌, refl, List, String, ℕ, ◌≡◌, some,
  any, [], find?,
}
use git_castle.Auth.Accounts.{user_of, has_user_id, has_name}
use git_castle.Repos.Service.{valid_name, get}
use git_castle.Tests.Samples.{all_work, castle, server}
use git_castle.Automation.Fanout.{run_line, read_build_command}
use git_castle.Repos.Store.{get_row}
use git_castle.Tests.Automation.{runner, config}
use git_castle.Webhooks.Types.{Hook}
use git_castle.Httpapi.Reply.{hook_body, job_launched, posted, error_body, write_json}
use git_castle.Httpapi.OwnProfile.{update_profile_route_own}
use git_castle.Webhooks.Store.{matching}
use git_castle.Webhooks.Dispatcher.{Post}
use mathlib.Core.List.{map}
use git_castle.Httpapi.Subscribed.{create_webhook_route_lem, heard_by}
use git_castle.Automation.Jobs.{job_row, launch_of}
use git_castle.Ci.Store.{is_job}
use git_castle.Ci.Executor.{run_one}
use git_castle.Ci.Outcome.{ending_of, ended_job}
use git_castle.Httpapi.Pushed.{notify_push_route_lem}
use git_castle.Auth.Types.{UserRow, SessionRow, User}
use git_castle.Httpapi.Router.{get_secrets, serve, Services, Site, on_db, registered}
use git_castle.Httpapi.Guarded.{run_as, serve_lem}
use git_castle.Auth.Crypto.{plain_crypto}
use git_castle.Auth.Sessions.{is_live}
use git_castle.Gitdata.Repo.{fails_with}

abbrev tables : Db
tables = server "open" [] []

abbrev payload : HookPushPayload
payload = record {
  owner = "alice";
  name = "castle";
  branch = "main";
  old_hash = "decade";
  new_hash = "c0ffee";
}

abbrev request : Request
request = record {
  owner = "alice";
  name = "castle";
  number = "1";
  branch = "main";
  state = "";
  user = record { id = 1; username = "alice"; created_at = 5 };
}

notify_push_route_lem_example :
    let command = read_build_command config castle.path "c0ffee" in
    let (reply, t) = notify_push_route (some config) "hush" "hush" (some payload) tables in
    ((reply.status ≡ 200)
      × ((posts : List Post) × (reply.effects
            ≡ map posted posts ++ job_launched (launch_of 1 1 "c0ffee" "main" command) ∷ []))
      × (find? (is_job 1) (run_one runner 1 1 "c0ffee" "main" command t).1.jobs
          ≡ some (
              ended_job
                (ending_of (runner castle.path "c0ffee" "main" command))
                9
                (job_row 1 1 9 "c0ffee" "main" "push" ""))))
    × ((token : String) (body : Option HookPushPayload)
        → (token == "hush") ≡ false
        → notify_push_route (some config) "hush" token body tables
          ≡ write_json 401 (error_body "invalid token") tables)
unfolding find? any read_build_command run_line git_castle.Prelude.Text.split
    git_castle.Prelude.Text.cut_prefix git_castle.Prelude.Text.trim get get_row valid_name
    git_castle.Prelude.Text.all_chars git_castle.Prelude.Text.rune_count git_castle.Exec.statement
    git_castle.Db.down git_castle.Db.later
notify_push_route_lem_example =
    notify_push_route_lem runner config "hush" payload castle tables refl refl refl refl refl refl
      refl refl refl

abbrev hook_input : HookInput
hook_input = record { url = "https://example.org"; secret = "s"; events = [] }

create_webhook_route_lem_example :
    let (reply, t) = create_webhook_route request (some hook_input) tables in
    let hook : Hook = record {
      id = 1;
      url = "https://example.org";
      secret = "s";
      events = "push" ∷ "pull_request" ∷ [];
    } in
    (reply.status ≡ 201)
    × (reply.body ≡ hook_body hook)
    × ((repo : ℕ) (event : String)
        → matching repo event t ≡ matching repo event tables ++ heard_by hook 1 repo event)
unfolding find? get get_row valid_name git_castle.Prelude.Text.all_chars
    git_castle.Prelude.Text.rune_count git_castle.Exec.statement git_castle.Db.down
    git_castle.Db.later
create_webhook_route_lem_example =
    create_webhook_route_lem request hook_input castle tables refl refl

abbrev bob_bio : ProfileInput
bob_bio = record { display_name = "Bob"; bio = "mine"; location = ""; website = "" }

update_profile_route_own_example :
    (find?
        (has_name "bob")
        (update_profile_route request.user "alice" (some bob_bio) tables).1.users
      ≡ find? (has_name "bob") tables.users)
    × (update_profile_route request.user "bob" (some bob_bio) tables
        ≡ write_json 403 (error_body "may only edit your own profile") tables)
update_profile_route_own_example =
    update_profile_route_own request.user "bob" refl "alice" (some bob_bio) tables

-- alice's session ends at 20, and the clock says 9.
abbrev session : SessionRow
session = record { token_hash = plain_crypto.digest "token"; user_id = 1; expires_at = 20 }

abbrev signed_in : Db
signed_in = record tables { sessions = session ∷ [] }

abbrev services : Services
services = record {
  crypto = plain_crypto;
  has_audit = true;
  merger = none;
  automation = false;
  pushes = none;
  internal_token = "";
  aead = record { seal = λ key nonce text. text; unseal = λ key nonce text. some text };
  secret_key = [];
  git = λ path args. fails_with "";
  os = all_work;
  repository_root = "/srv/git";
  storage_root = "srv" ∷ [];
  bundler = record { create = λ owner name. none; list_heads = λ bundle. none };
  salt = "salt";
  token = some "token";
  nonce = some "nonce";
  stamp = "20260101-000000";
}

abbrev site : Site
site = record {
  db = signed_in;
  disk = castle.path ∷ [];
  volume = record { files = []; directories = []; clock = 0; faults = [] };
}

-- A request for the secrets of alice's repository, with her session
serve_lem_example :
    (((("token" == "") ≡ true)
        ⊎ (find? (is_live (plain_crypto.digest "token") 9) signed_in.sessions ≡ none))
      → serve services "token" "10.0.0.1" request get_secrets site
        ≡ on_db (write_json 401 (error_body "authentication required")) site)
    × ((session : SessionRow) (row : UserRow)
        → ("token" == "") ≡ false
        → find? (is_live (plain_crypto.digest "token") 9) signed_in.sessions ≡ some session
        → find? (has_user_id session.user_id) signed_in.users ≡ some row
        → serve services "token" "10.0.0.1" request get_secrets site
          ≡ run_as (user_of row) (registered services "token" "10.0.0.1" request get_secrets) site)
    × ((user : User)
        → serve services "token" "10.0.0.1" (record request { user = user }) get_secrets site
          ≡ serve services "token" "10.0.0.1" request get_secrets site)
serve_lem_example = serve_lem services "token" "10.0.0.1" request get_secrets site refl refl
