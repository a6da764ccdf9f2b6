-- ===== src/Httpapi/Guarded.antt =====
-- Which routes need a session, and as whom they run.
use git_castle.Httpapi.Router.{
  registered, Registered, direct, with_user, Handler, Site, Endpoint, serve, run, require_user,
  on_db, Services, health, post_register, post_login, post_logout, post_notify_push, get_profile_of,
}
use git_castle.Prelude.{
  Bool, sym, false≢true, inr, inl, ◌∙◌, Bool-cases, ap, ◌⊎◌, some, refl, none, true, false, ◌==◌,
  find?, [], ◌≡◌, String,
}
use git_castle.Httpapi.Request.{Request}
use git_castle.Db.{Db}
use git_castle.Auth.Sessions.{owner_of, is_live, user_for_token}
use git_castle.Httpapi.Reply.{error_body, write_json, error_status}
use git_castle.Httpapi.Session.{current_user}
use git_castle.Auth.Types.{UserRow, User, SessionRow}
use git_castle.Errors.{ok, no_session, err, Result}
use git_castle.Auth.Accounts.{user_of, has_user_id}
use git_castle.Exec.{statement_up}
use git_castle.Auth.Crypto.{Crypto}

-- The requests that may come without a session: the health check, registration, login and logout,
-- the callback of pushes, and the reading of a profile.
abbrev pub is_public : Endpoint → Bool
is_public health = true
is_public (post_register _) = true
is_public (post_login _) = true
is_public post_logout = true
is_public (post_notify_push _ _) = true
is_public (get_profile_of _) = true
is_public _ = false

-- The handler of a route, run for a user
abbrev pub run_as : User → Registered → Handler
run_as user (direct handler) = handler
run_as user (with_user next) = next user

-- The handler stands behind requireUser, and does not read the user that the request comes with.
abbrev IsGuarded : Services → String → String → Request → Endpoint → Type 0
IsGuarded h cookie ip r endpoint =
    (next : User → Handler) × (registered h cookie ip r endpoint ≡ with_user next)
    × ((user : User) → registered h cookie ip (record r { user = user }) endpoint ≡ with_user next)

guarded :
    (h : Services) (cookie ip : String) (r : Request) (endpoint : Endpoint)
    → is_public endpoint ≡ false
    → IsGuarded h cookie ip r endpoint
unfolding registered
guarded h cookie ip r health private = absurd (false≢true (sym private))
guarded h cookie ip r (post_register _) private = absurd (false≢true (sym private))
guarded h cookie ip r (post_login _) private = absurd (false≢true (sym private))
guarded h cookie ip r post_logout private = absurd (false≢true (sym private))
guarded h cookie ip r (post_notify_push _ _) private = absurd (false≢true (sym private))
guarded h cookie ip r (get_profile_of _) private = absurd (false≢true (sym private))
guarded h cookie ip r _ private = (_, refl, λ user. refl)

module _ (c : Crypto) (cookie : String) (s : Db) (up : s.outages ≡ []) where
  current_user-token : (cookie == "") ≡ false → current_user c cookie s ≡ user_for_token c cookie s
  unfolding current_user
  current_user-token filled = rw filled refl

  current_user-missing : (cookie == "") ≡ true → current_user c cookie s ≡ (err no_session, s)
  unfolding current_user
  current_user-missing blank = rw blank refl

  token-none :
      find? (is_live (c.digest cookie) s.clock) s.sessions ≡ none
      → user_for_token c cookie s ≡ (err no_session, s)
  unfolding user_for_token
  token-none gone =
      statement_up "resolve session"
        (λ s. (owner_of s.users (find? (is_live (c.digest cookie) s.clock) s.sessions), s)) s up
      ∙ rw gone refl

  token-some :
      (session : SessionRow) (row : UserRow)
      → find? (is_live (c.digest cookie) s.clock) s.sessions ≡ some session
      → find? (has_user_id session.user_id) s.users ≡ some row
      → user_for_token c cookie s ≡ (ok (user_of row), s)
  unfolding user_for_token
  token-some session row live found =
      statement_up "resolve session"
        (λ s. (owner_of s.users (find? (is_live (c.digest cookie) s.clock) s.sessions), s)) s up
      ∙ rw (live, found) refl

-- For a route that is not public, without an outage: a request without a cookie, or with one that no
-- live session has, is answered with 401, and nothing changes in the database, on the disk or on the
-- volume; with the cookie of a live session of a stored account, the handler runs as that account;
-- and whatever user the request names, it is answered alike. Public are the health check,
-- registration, login, logout, the callback of pushes, and the reading of a profile.
pub serve_lem :
    (h : Services) (cookie ip : String) (r : Request) (endpoint : Endpoint) (w : Site)
    → w.db.outages ≡ []
    → is_public endpoint ≡ false
    → (((cookie == "") ≡ true)
          ⊎ (find? (is_live (h.crypto.digest cookie) w.db.clock) w.db.sessions ≡ none)
        → serve h cookie ip r endpoint w
          ≡ on_db (write_json 401 (error_body "authentication required")) w)
      × ((session : SessionRow) (row : UserRow)
          → (cookie == "") ≡ false
          → find? (is_live (h.crypto.digest cookie) w.db.clock) w.db.sessions ≡ some session
          → find? (has_user_id session.user_id) w.db.users ≡ some row
          → serve h cookie ip r endpoint w
            ≡ run_as (user_of row) (registered h cookie ip r endpoint) w)
      × ((user : User)
          → serve h cookie ip (record r { user = user }) endpoint w
            ≡ serve h cookie ip r endpoint w)
unfolding serve error_status
serve_lem h cookie ip r endpoint w up private =
    let (next, here, others) = guarded h cookie ip r endpoint private in
    let answered : (out : Result User × Db)
        → current_user h.crypto cookie w.db ≡ out
        → run h.crypto cookie (registered h cookie ip r endpoint) w ≡ require_user out next w =
      λ out e. rw (here, e) refl in
    (
      λ missing. elim (Bool-cases (cookie == "")) [
        | inl blank ↦ answered _ (current_user-missing h.crypto cookie w.db up blank)
        | inr filled ↦ elim missing [
          | inl blank ↦ absurd (false≢true (sym filled ∙ blank))
          | inr gone ↦ answered _ (
              current_user-token h.crypto cookie w.db up filled
              ∙ token-none h.crypto cookie w.db up gone)
        ]
      ],
      (λ session row filled live found.
          answered _ (
            current_user-token h.crypto cookie w.db up filled
            ∙ token-some h.crypto cookie w.db up session row live found)
          ∙ rw here refl),
      λ user. ap (λ out. run h.crypto cookie out w) (others user ∙ sym here),
    )
