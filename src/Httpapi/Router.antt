-- ===== src/Httpapi/Router.antt =====
-- The routes that NewHandler of internal/httpapi/handler.go registers with the functions
-- registerContentRoutes, registerCollabRoutes, registerAutomationRoutes and registerHardeningRoutes,
-- for a handler with all stores. A pattern of the mux is a constructor, with the rest of the path and
-- the body as its arguments; the user in its request is the one that requireUser finds.
use git_castle.Auth.Crypto.{Crypto}
use git_castle.Httpapi.Reply.{write_error, Reply, status_body, write_json, Route}
use git_castle.Httpapi.Request.{Request}
use git_castle.Prelude.{ℕ, List, none, some, Bool, String, Option}
use git_castle.Httpapi.Notify.{notify_push_route, HookPushPayload}
use git_castle.Httpapi.Pulls.{
  put_review_route, merge_pull_request_route, create_pull_request_route, list_reviews_route,
  get_pull_request_route, list_pull_requests_route, Merger, PullInput,
}
use git_castle.Httpapi.Session.{current_user, logout, login, register, me}
use git_castle.Prelude.Int.{ℤ}
use git_castle.Automation.Fanout.{Config}
use git_castle.Httpapi.Automation.{
  delete_secret_route, put_secret_route, list_secrets_route, list_jobs_route, create_webhook_route,
  delete_webhook_route, list_deliveries_route, list_webhooks_route, HookInput,
}
use git_castle.Httpapi.Repositories.{create_repository, get_repository, list_repositories}
use git_castle.Httpapi.Hardening.{
  create_backup_route, list_backups_route, Backed, list_audit_route, update_profile_route,
  get_profile_route, ProfileInput,
}
use git_castle.Secrets.Store.{Aead}
use git_castle.Httpapi.Content.{
  get_commit_route, list_commits_route, get_blob_route, list_tree_route, list_refs_route,
}
use git_castle.Gitdata.Repo.{Git}
use git_castle.Httpapi.Issues.{
  add_comment_route, patch_issue_route, create_issue_route, list_comments_route, get_issue_route,
  list_issues_route,
}
use git_castle.Httpapi.Protection.{
  put_protection_route, delete_protection_route, get_protection_route,
}
use git_castle.Auth.Types.{User}
use git_castle.Db.{Db}
use git_castle.Errors.{ok, err, Result}
use git_castle.Repos.Service.{World, Os}
use git_castle.Repos.Types.{CreateInput}
use git_castle.Storage.Files.{Volume}
use git_castle.Storage.Paths.{FilePath}
use git_castle.Storage.Backup.{Bundler}

-- What the handler was made with
pub record Services : Type 0 where
  pub crypto : Crypto
  pub has_audit : Bool
  pub merger : Option Merger
  pub automation : Bool
  pub pushes : Option Config
  pub internal_token : String
  pub aead : Aead
  pub secret_key : List ℕ
  pub git : String → Git
  pub os : Os
  pub repository_root : String
  pub storage_root : FilePath
  pub bundler : Bundler
  -- what the random source and the clock give to this request: a salt, a session token, a nonce, and
  -- the time of a backup
  pub salt : String
  pub token : Option String
  pub nonce : Option String
  pub stamp : String

-- The database, the directories of the repositories and the volume of the backups
pub record Site : Type 0 where
  pub db : Db
  pub disk : List String
  pub volume : Volume

abbrev pub Handler : Type 0
Handler = Site → Reply × Site

abbrev pub on_db : Route → Handler
on_db route w = let (reply, db) = route w.db in (reply, record w { db = db })

abbrev pub on_world : (World → Reply × World) → Handler
on_world handler w =
    let (reply, v) = handler (record { db = w.db; disk = w.disk }) in
    (reply, record w { db = v.db; disk = v.disk })

abbrev pub on_backed : (Backed → Reply × Backed) → Handler
on_backed handler w =
    let (reply, v) = handler (record { db = w.db; volume = w.volume }) in
    (reply, record w { db = v.db; volume = v.volume })

pub data Endpoint : Type 0 where
  health : Endpoint
  post_register : Option (String × String) → Endpoint
  post_login : Option (String × String) → Endpoint
  post_logout : Endpoint
  post_notify_push : (token : String) → Option HookPushPayload → Endpoint
  get_profile_of : (username : String) → Endpoint
  get_me get_repositories get_one_repository : Endpoint
  post_repository : Option CreateInput → Endpoint
  get_refs : Endpoint
  get_tree get_blob : (rev path : String) → Endpoint
  get_commits get_one_commit : (rev : String) → Endpoint
  get_issues get_one_issue get_issue_comments : Endpoint
  post_issue : Option (String × String) → Endpoint
  patch_issue : Option String → Endpoint
  post_issue_comment post_pull_comment : Option String → Endpoint
  get_pulls get_one_pull get_pull_comments get_reviews : Endpoint
  post_pull : Option PullInput → Endpoint
  post_merge : Endpoint
  put_review : Option (String × String) → Endpoint
  get_protection delete_protection : Endpoint
  put_protection_of : Option (ℤ × Bool) → Endpoint
  get_webhooks get_deliveries delete_webhook : Endpoint
  post_webhook : Option HookInput → Endpoint
  get_jobs get_secrets : Endpoint
  put_secret_of : (name : String) → Option String → Endpoint
  delete_secret_of : (name : String) → Endpoint
  put_profile : (username : String) → Option ProfileInput → Endpoint
  get_audit : (actor action limit : String) → Endpoint
  get_backups post_backup : Endpoint

-- health
abbrev pub health_route : Route
health_route = write_json 200 (status_body "ok")

-- A handler as the mux has it: h.f, or h.requireUser(h.f), where f reads the user of its request
pub data Registered : Type 0 where
  direct : Handler → Registered
  with_user : (User → Handler) → Registered

-- A route on the database that asks for a user
abbrev pub signed : Request → (Request → Route) → Registered
signed r route = with_user λ user. on_db (route (record r { user = user }))

unfoldable pub registered : Services → String → String → Request → Endpoint → Registered
registered h cookie ip r health = direct (on_db (health_route))
registered h cookie ip r (post_register input) = direct (on_db (register h.crypto h.salt input))
registered h cookie ip r (post_login input) =
    direct (on_db (login h.crypto h.has_audit h.token ip input))
registered h cookie ip r post_logout = direct (on_db (logout h.crypto h.has_audit ip cookie none))
registered h cookie ip r (post_notify_push token body) =
    direct (on_db (notify_push_route h.pushes h.internal_token token body))
registered h cookie ip r (get_profile_of username) = direct (on_db (get_profile_route username))
registered h cookie ip r get_me = signed r λ r. me (some r.user)
registered h cookie ip r get_repositories = signed r λ r. list_repositories
registered h cookie ip r get_one_repository = signed r λ r. get_repository r.owner r.name
registered h cookie ip r get_refs = signed r λ r. list_refs_route h.git r
registered h cookie ip r (get_tree rev path) = signed r λ r. list_tree_route h.git r rev path
registered h cookie ip r (get_blob rev path) = signed r λ r. get_blob_route h.git r rev path
registered h cookie ip r (get_commits rev) = signed r λ r. list_commits_route h.git r rev
registered h cookie ip r (get_one_commit hash) = signed r λ r. get_commit_route h.git r hash
registered h cookie ip r get_issues = signed r λ r. list_issues_route r
registered h cookie ip r get_one_issue = signed r λ r. get_issue_route r
registered h cookie ip r get_issue_comments = signed r λ r. list_comments_route "issue" r
registered h cookie ip r (post_issue input) = signed r λ r. create_issue_route r input
registered h cookie ip r (patch_issue input) = signed r λ r. patch_issue_route r input
registered h cookie ip r (post_issue_comment input) =
    signed r λ r. add_comment_route "issue" r input
registered h cookie ip r (post_pull_comment input) =
    signed r λ r. add_comment_route "pull_request" r input
registered h cookie ip r get_pulls = signed r λ r. list_pull_requests_route r
registered h cookie ip r get_one_pull = signed r λ r. get_pull_request_route r
registered h cookie ip r get_pull_comments = signed r λ r. list_comments_route "pull_request" r
registered h cookie ip r get_reviews = signed r λ r. list_reviews_route r
registered h cookie ip r (post_pull input) = signed r λ r. create_pull_request_route r input
registered h cookie ip r post_merge = signed r λ r. merge_pull_request_route h.merger h.automation r
registered h cookie ip r (put_review input) = signed r λ r. put_review_route r input
registered h cookie ip r get_protection = signed r λ r. get_protection_route r
registered h cookie ip r delete_protection = signed r λ r. delete_protection_route r
registered h cookie ip r (put_protection_of input) = signed r λ r. put_protection_route r input
registered h cookie ip r get_webhooks = signed r λ r. list_webhooks_route r
registered h cookie ip r get_deliveries = signed r λ r. list_deliveries_route r
registered h cookie ip r delete_webhook = signed r λ r. delete_webhook_route r
registered h cookie ip r (post_webhook input) = signed r λ r. create_webhook_route r input
registered h cookie ip r get_jobs = signed r λ r. list_jobs_route r
registered h cookie ip r get_secrets = signed r λ r. list_secrets_route r
registered h cookie ip r (put_secret_of name input) =
    signed r λ r. put_secret_route h.aead h.secret_key h.nonce r name input
registered h cookie ip r (delete_secret_of name) = signed r λ r. delete_secret_route r name
registered h cookie ip r (put_profile username input) =
    signed r λ r. update_profile_route r.user username input
registered h cookie ip r (get_audit actor action limit) =
    signed r λ r. list_audit_route actor action limit
registered h cookie ip r (post_repository input) =
    with_user λ user. on_world (create_repository h.os h.repository_root h.has_audit ip user input)
registered h cookie ip r get_backups =
    with_user λ user. on_backed (list_backups_route h.storage_root (record r { user = user }))
registered h cookie ip r post_backup = with_user λ user.
    on_backed (
      create_backup_route h.storage_root h.bundler h.stamp h.has_audit ip
        (record r { user = user }))

-- requireUser
abbrev pub require_user : Result User × Db → (User → Handler) → Handler
require_user (err e, db) next w = on_db (write_error e) (record w { db = db })
require_user (ok user, db) next w = next user (record w { db = db })

abbrev pub run : Crypto → String → Registered → Handler
run c cookie (direct handler) w = handler w
run c cookie (with_user next) w = require_user (current_user c cookie w.db) next w

-- ServeHTTP of the mux, for a request that one of the patterns takes
unfoldable pub serve : Services → String → String → Request → Endpoint → Handler
unfolding registered
serve h cookie ip r endpoint = run h.crypto cookie (registered h cookie ip r endpoint)
