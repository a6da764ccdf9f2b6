-- ===== src/Httpapi/Session.antt =====
-- internal/httpapi/auth.go: registration, login, logout, and the user of a request. The caller's
-- address is what remoteIP gives; a cookie that is missing or empty is the empty text.
use git_castle.Auth.Types.{User}
use git_castle.Auth.Crypto.{Crypto}
use git_castle.Auth.Accounts.{create_user, authenticate}
use git_castle.Auth.Sessions.{start_session, user_for_token, end_session}
use git_castle.Audit.Store.{record_entry}
use git_castle.Httpapi.Reply.{
  Reply, Route, write_json, user_body, status_body, error_body, try, set_cookie, clear_cookie,
  after, quietly, write_error,
}
use git_castle.Httpapi.Request.{decode}
use git_castle.Prelude.{◌==◌, none, some, if◌then◌else◌, [], ◌∷◌, String, Option, Bool}
use git_castle.Errors.{ok, no_session, err, Result}
use git_castle.Exec.{raise, Exec}
use git_castle.Db.{Db}

-- currentUser
unfoldable pub current_user : Crypto → String → Exec User
current_user c cookie = if cookie == "" then raise no_session else user_for_token c cookie

-- register; the input is username and password
abbrev pub register : Crypto → String → Option (String × String) → Route
register c salt input =
    decode input λ i. try (create_user c salt i.0 i.1) λ user. write_json 201 (user_body user)

-- The audit record of a handler, if there is an audit log.
abbrev pub audited : Bool → String → String → String → String → Route → Route
audited has_audit actor action target ip rest =
    if has_audit then quietly (record_entry actor action target none ip) rest else rest

abbrev pub start_for : Crypto → Option String → User → Route
start_for c token user =
    try (start_session c token user.id)
      λ started s. after (set_cookie started.0 started.1 ∷ []) (write_json 200 (user_body user) s)

abbrev pub login_answer :
    Crypto → Bool → Option String → String → String → Result User × Db → Reply × Db
login_answer c has_audit token ip username (err e, s) =
    audited has_audit username "login_failed" username ip (write_error e) s
login_answer c has_audit token ip username (ok user, s) =
    audited has_audit user.username "login" user.username ip (start_for c token user) s

-- login; the token is what newSessionToken would give, none if it fails
unfoldable pub login : Crypto → Bool → Option String → String → Option (String × String) → Route
login c has_audit token ip input =
    decode input λ i s. login_answer c has_audit token ip i.0 (authenticate c i.0 i.1 s)

abbrev pub cleared : Route
cleared s = after (clear_cookie ∷ []) (write_json 200 (status_body "logged out") s)

abbrev pub ended_for : Crypto → String → Route
ended_for c cookie = if cookie == "" then cleared else try (end_session c cookie) λ _. cleared

-- logout, behind requireUser or not
abbrev pub logout : Crypto → Bool → String → String → Option User → Route
logout c has_audit ip cookie none = ended_for c cookie
logout c has_audit ip cookie (some user) =
    audited has_audit user.username "logout" user.username ip (ended_for c cookie)

-- me
abbrev pub me : Option User → Route
me none = write_json 401 (error_body "not logged in")
me (some user) = write_json 200 (user_body user)
