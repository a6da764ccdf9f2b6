-- ===== src/Errors.antt =====
-- The error values of all packages in one type, and the text that `Error()` gives of each:
-- internal/repos/store.go, internal/gitdata/history.go, internal/collab/collab.go,
-- internal/auth/{store,permissions}.go, internal/gitserve/bridge.go, internal/storage/storage.go.
-- A `plain` error is `fmt.Errorf` or `errors.New` of a text of its own; a `failed` one is
-- `fmt.Errorf("<context>: %w", err)` around an error of the database driver, of the operating
-- system or of a child process, of which only the context is kept.
use git_castle.Prelude.{String}
use Prim.Native.String.{◌++◌}

pub data Error : Type 0 where
  repository_exists repository_not_found : Error
  revision_not_found : Error
  not_found invalid_state not_mergeable protected review_required : Error
  user_exists invalid_username weak_password bad_credentials no_session : Error
  permission_not_found access_denied object_not_found : Error
  plain failed : String → Error

pub data Result {ℓ} (A : Type ℓ) : Type ℓ where
  ok : A → Result A
  err : Error → Result A

-- The driver's own text behind a context is not modelled.
pub error_text : Error → String
error_text repository_exists = "repository already exists"
error_text repository_not_found = "repository not found"
error_text revision_not_found = "not found"
error_text not_found = "not found"
error_text invalid_state = "invalid state transition"
error_text not_mergeable = "pull request is not open"
error_text protected = "branch is protected"
error_text review_required = "required approvals missing"
error_text user_exists = "user already exists"
error_text invalid_username = "invalid username"
error_text weak_password = "password must be at least 8 characters"
error_text bad_credentials = "invalid username or password"
error_text no_session = "no valid session"
error_text permission_not_found = "permission not found"
error_text access_denied = "access denied"
error_text object_not_found = "object not found"
error_text (plain text) = text
error_text (failed context) = context ++ ": "
