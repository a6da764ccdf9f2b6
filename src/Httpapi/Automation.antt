-- ===== src/Httpapi/Automation.antt =====
-- The routes of internal/httpapi/automation.go on webhooks, jobs and secrets, with a store for each.
-- The path value "id" is the request's number.
use git_castle.Httpapi.Request.{parse_number, decode, resolve_repo, Request}
use git_castle.Prelude.{◌==◌, if◌then◌else◌, [], ◌∷◌, ℕ, Option, String, List}
use git_castle.Secrets.Store.{set_secret, list_secrets, delete_secret, Aead}
use git_castle.Httpapi.Reply.{
  jobs_body, name_body, status_body, secrets_body, hooks_body, hook_body, error_body,
  deliveries_body, write_json, try, Route,
}
use git_castle.Webhooks.Store.{list_hooks, list_deliveries, delete_hook, create_hook}
use git_castle.Ci.Store.{list_jobs}
use git_castle.Prelude.Int.{pos}

-- listWebhooksRoute
abbrev pub list_webhooks_route : Request → Route
list_webhooks_route r =
    resolve_repo r
      λ repository. try (list_hooks repository.id "") λ hooks. write_json 200 (hooks_body hooks)

-- The URL, the secret and the events of a new webhook
pub record HookInput : Type 0 where
  pub url : String
  pub secret : String
  pub events : List String

abbrev pub events_of : List String → List String
events_of [] = "push" ∷ "pull_request" ∷ []
events_of (event ∷ events) = event ∷ events

-- createWebhookRoute
unfoldable pub create_webhook_route : Request → Option HookInput → Route
create_webhook_route r input = resolve_repo r λ repository. decode input λ i.
    try (create_hook repository.id i.url i.secret (events_of i.events))
      λ hook. write_json 201 (hook_body hook)

-- deleteWebhookRoute, with parseID
abbrev pub delete_webhook_route : Request → Route
delete_webhook_route r = resolve_repo r λ repository.
    parse_number r
      λ id. try (delete_hook repository.id id) λ _. write_json 200 (status_body "deleted")

-- listDeliveriesRoute
abbrev pub list_deliveries_route : Request → Route
list_deliveries_route r = resolve_repo r λ repository.
    try (list_deliveries repository.id) λ deliveries. write_json 200 (deliveries_body deliveries)

-- listJobsRoute
abbrev pub list_jobs_route : Request → Route
list_jobs_route r =
    resolve_repo r
      λ repository. try (list_jobs repository.id (pos 20)) λ jobs. write_json 200 (jobs_body jobs)

-- listSecretsRoute
abbrev pub list_secrets_route : Request → Route
list_secrets_route r =
    resolve_repo r λ repository.
      try (list_secrets repository.id) λ secrets. write_json 200 (secrets_body secrets)

-- putSecretRoute
abbrev pub put_secret_route :
    Aead → List ℕ → Option String → Request → String → Option String → Route
put_secret_route aead key random r name input = resolve_repo r λ repository.
    if name == ""
    then write_json 400 (error_body "invalid number")
    else decode input λ value.
      try (set_secret aead key random repository.id name value) λ _. write_json 201 (name_body name)

-- deleteSecretRoute
abbrev pub delete_secret_route : Request → String → Route
delete_secret_route r name =
    resolve_repo r λ repository.
      try (delete_secret repository.id name) λ _. write_json 200 (status_body "deleted")
