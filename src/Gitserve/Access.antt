-- ===== src/Gitserve/Access.antt =====
-- AuthHandler of internal/gitserve/auth.go with the functions that cmd/gitcastle/main.go plugs into
-- its BridgeAuthorizer (internal/gitserve/bridge.go). A reply is the state in which the request was
-- refused, or `backend`: git http-backend gets the request.
use git_castle.Prelude.{not, none, ◌==◌, some, if◌then◌else◌, Option, ℕ, String}
use git_castle.Gitserve.Request.{write, wants_write, parse_owner_repo, read, Access, GitRequest}
use git_castle.Auth.Crypto.{Crypto}
use git_castle.Errors.{access_denied, ok, err, Result}
use git_castle.Db.{Db}
use git_castle.Exec.{raise, pure, ◌>>=◌, Exec}
use git_castle.Auth.Accounts.{user_for_id, authenticate}
use git_castle.Repos.Service.{get}
use git_castle.Auth.Permissions.{has_at_least, role_for}

pub data GitReply : Type 0 where
  -- 401 with a message, and 403
  unauthorized : String → GitReply
  forbidden : GitReply
  backend : GitReply

abbrev pub required_role : Access → String
required_role read = "read"
required_role write = "write"

-- CheckAccessFunc of main.go
unfoldable pub check_access : ℕ → String → String → Access → Exec (Unit {0})
check_access user_id owner repo access = do
  repository ← get owner repo
  user ← user_for_id user_id
  role ← role_for repository.id user.username
  if not (has_at_least role (required_role access)) then raise access_denied else pure tt

-- AuthenticateFunc of main.go
unfoldable pub authenticate_id : Crypto → String → String → Exec ℕ
authenticate_id c username password = do user ← authenticate c username password; pure user.id

abbrev pub reply_access : Result (Unit {0}) × Db → GitReply × Db
reply_access (ok _, s) = (backend, s)
reply_access (err _, s) = (forbidden, s)

abbrev pub access_of : GitRequest → Access
access_of r = if wants_write r then write else read

-- A path without an owner is passed on unchecked.
unfoldable pub authorize : ℕ → GitRequest → Db → GitReply × Db
authorize user_id r s =
    let (owner, repo) = parse_owner_repo r.path in
    if owner == ""
    then (backend, s)
    else reply_access (check_access user_id owner repo (access_of r) s)

abbrev pub reply_authenticated : GitRequest → Result ℕ × Db → GitReply × Db
reply_authenticated r (err _, s) = (unauthorized "invalid credentials", s)
reply_authenticated r (ok user_id, s) = authorize user_id r s

abbrev pub with_credentials : Crypto → GitRequest → Option (String × String) → Db → GitReply × Db
with_credentials c r none s = (unauthorized "authentication required", s)
with_credentials c r (some (username, password)) s =
    if username == ""
    then (unauthorized "authentication required", s)
    else reply_authenticated r (authenticate_id c username password s)

-- ServeHTTP
unfoldable pub serve_git : Crypto → GitRequest → Db → GitReply × Db
serve_git c r s = with_credentials c r r.basic_auth s
