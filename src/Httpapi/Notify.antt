-- ===== src/Httpapi/Notify.antt =====
-- notifyPushRoute of internal/httpapi/automation.go, and the automationAdapter of
-- cmd/gitcastle/main.go that it calls.
use git_castle.Automation.Fanout.{push_received, Launch, PushEvent, Fanout, Config}
use git_castle.Prelude.{
  ◌++◌, none, not, some, if◌then◌else◌, ◌||◌, ◌==◌, ℕ, String, Option, List, Bool,
}
use git_castle.Httpapi.Reply.{
  job_launched, posted, try, status_body, error_body, after, Effect, write_json, Route, Reply,
}
use git_castle.Webhooks.Dispatcher.{Post}
use git_castle.Db.{Db}
use git_castle.Httpapi.Request.{decode}
use mathlib.Core.List.{map}
use git_castle.Repos.Service.{get}

pub record HookPushPayload : Type 0 where
  pub owner : String
  pub name : String
  pub branch : String
  pub old_hash : String
  pub new_hash : String

-- The event of automationAdapter.PushReceived; the actor is left empty.
abbrev pub adapted : ℕ → HookPushPayload → PushEvent
adapted id input = record {
  repository_id = id;
  owner = input.owner;
  name = input.name;
  actor = "";
  branch = input.branch;
  old_hash = input.old_hash;
  new_hash = input.new_hash;
}

abbrev pub effects_of : List Post → List Launch → List Effect
effects_of posts launches = map posted posts ++ map job_launched launches

abbrev pub notified : Fanout → Reply × Db
notified (posts, launches, s) =
    after (effects_of posts launches) (write_json 200 (status_body "notified") s)

abbrev pub lacks_field : HookPushPayload → Bool
lacks_field input = input.owner == "" || input.name == "" || input.branch == ""

-- What follows the check of the token
unfoldable pub receive_push : Config → Option HookPushPayload → Route
receive_push config body = decode body λ input.
    if lacks_field input
    then write_json 400 (error_body "owner, name, branch required")
    else try (get input.owner input.name)
        λ repository s. notified (push_received config (adapted repository.id input) s)

abbrev pub notify_with : String → String → Option HookPushPayload → Option Config → Route
notify_with internal_token token body none =
    write_json 404 (error_body "push notifications disabled")
notify_with internal_token token body (some config) =
    if internal_token == ""
    then write_json 404 (error_body "push notifications disabled")
    else if not (token == internal_token)
    then write_json 401 (error_body "invalid token")
    else receive_push config body

-- notifyPushRoute; the notifier is none if it is not set
unfoldable pub notify_push_route : Option Config → String → String → Option HookPushPayload → Route
notify_push_route pushes internal_token token body = notify_with internal_token token body pushes
