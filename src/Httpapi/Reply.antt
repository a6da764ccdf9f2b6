-- ===== src/Httpapi/Reply.antt =====
-- Replies, and writeError of internal/httpapi/handler.go. A JSON object is kept as the values that
-- the handler puts into it.
use git_castle.Prelude.{Option, ◌++◌, if◌then◌else◌, [], ℕ, List, String}
use git_castle.Db.{Db}
use git_castle.Errors.{
  no_session, bad_credentials, weak_password, invalid_username, user_exists, protected,
  review_required, not_mergeable, invalid_state, not_found, revision_not_found,
  repository_not_found, repository_exists, failed, err, plain, ok, Result, Error,
}
use git_castle.Exec.{Exec}
use git_castle.Auth.Types.{Profile, User}
use git_castle.Repos.Types.{Repository}
use git_castle.Collab.Types.{
  BranchProtection, Review, MergeCheck, PullRequest, Comment, Issue, Blocker,
}
use git_castle.Prelude.Text.{append, has_prefix}
use git_castle.Webhooks.Dispatcher.{Post}
use git_castle.Webhooks.Types.{Delivery, Hook}
use git_castle.Automation.Fanout.{Launch}
use git_castle.Ci.Types.{Job}
use git_castle.Secrets.Types.{Secret}
use git_castle.Audit.Types.{Entry}
use git_castle.Storage.Local.{Object}
use git_castle.Gitdata.Repo.{TreeEntry, Ref}
use git_castle.Gitdata.Commits.{Commit}

-- What a handler does outside the database, in order.
pub data Effect : Type 0 where
  -- Merger.MergePR(owner, name, number, source, target, user)
  git_merge : (owner name : String) (number : ℕ) (source target user : String) → Effect
  -- Automation.PullRequestMerged
  merged :
      (repository_id : ℕ) (owner name : String) (number : ℕ) (actor commit source target : String)
      → Effect
  -- the session cookie with its token and expiry, and its removal
  set_cookie : (token : String) (expires : ℕ) → Effect
  clear_cookie : Effect
  -- PushNotifier.PushReceived: what automation does then
  posted : Post → Effect
  job_launched : Launch → Effect

pub data Body : Type 0 where
  error_body : String → Body
  blocked : List Blocker → Body
  issue_body : Issue → Body
  issues_body : List Issue → Body
  comment_body : Comment → Body
  comments_body : List Comment → Body
  pull_body : PullRequest → Body
  pulls_body : List PullRequest → Body
  pull_with_check : PullRequest → MergeCheck → Body
  review_body : Review → Body
  reviews_body : List Review → Body
  protection_body : BranchProtection → Body
  status_body : String → Body
  user_body : User → Body
  repository_body : Repository → Body
  repositories_body : List Repository → Body
  hook_body : Hook → Body
  hooks_body : List Hook → Body
  deliveries_body : List Delivery → Body
  jobs_body : List Job → Body
  secrets_body : List Secret → Body
  name_body : String → Body
  profile_body : Profile → Body
  entries_body : List Entry → Body
  backups_body : List Object → Body
  key_body : String → Body
  refs_body : List Ref → (head : String) → Body
  tree_body : List TreeEntry → Body
  blob_body : Option String → Body
  commits_body : List Commit → Body
  commit_body : Commit → (patch : String) → Body

pub record Reply : Type 0 where
  pub status : ℕ
  pub body : Body
  pub effects : List Effect

-- A handler after the middleware: it reads and writes the database and always replies.
abbrev pub Route : Type 0
Route = Db → Reply × Db

abbrev pub write_json : ℕ → Body → Route
write_json status body s = (record { status = status; body = body; effects = [] }, s)

-- The status and the message of an error.
unfoldable pub error_status : Error → ℕ × String
error_status repository_exists = (409, "repository already exists")
error_status repository_not_found = (404, "repository not found")
error_status revision_not_found = (404, "revision or path not found")
error_status not_found = (404, "not found")
error_status invalid_state = (400, "invalid state transition")
error_status not_mergeable = (422, "pull request is not open")
error_status review_required = (422, "required approvals missing")
error_status protected = (403, "branch is protected")
error_status user_exists = (409, "user already exists")
error_status invalid_username =
    (400, "invalid username: use 1-40 letters, numbers, dashes, or underscores")
error_status weak_password = (400, "password must be at least 8 characters")
error_status bad_credentials = (401, "invalid username or password")
error_status no_session = (401, "authentication required")
error_status (plain text) =
    if has_prefix text "invalid " then (400, text) else (500, "internal server error")
error_status (failed context) =
    let text = append context ": " in
    if has_prefix text "invalid " then (400, text) else (500, "internal server error")
error_status _ = (500, "internal server error")

abbrev pub write_error : Error → Route
write_error e = let (status, message) = error_status e in write_json status (error_body message)

-- `v, err := m(); if err != nil { h.writeError(w, err); return }`
abbrev pub answer : {A : Type 0} → Result A × Db → (A → Route) → Route
answer (ok a, t) f _ = f a t
answer (err e, t) f _ = write_error e t

abbrev pub try : {A : Type 0} → Exec A → (A → Route) → Route
try m f s = answer (m s) f s

-- What was done before the rest of the handler.
abbrev pub after : List Effect → Reply × Db → Reply × Db
after done (r, s) = (record r { effects = done ++ r.effects }, s)

-- `_ = m()`: the error is dropped.
abbrev pub quietly : {A : Type 0} → Exec A → Route → Route
quietly m rest s = rest (m s).1
