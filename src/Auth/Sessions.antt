-- ===== src/Auth/Sessions.antt =====
-- Sessions of internal/auth/store.go. Times are seconds.
use git_castle.Prelude.{
  none, [], ◌∷◌, ◌+◌, ◌++◌, some, delete, ltb, find?, any, ◌==◌, ◌&&◌, if◌then◌else◌, ◌*◌, Option,
  Bool, ℕ, List, String,
}
use git_castle.Auth.Types.{UserRow, SessionRow, User}
use git_castle.Auth.Crypto.{Crypto}
use git_castle.Exec.{pure, ◌>>=◌, statement, Exec}
use git_castle.Errors.{ok, no_session, failed, err, Result}
use git_castle.Auth.Accounts.{has_user_id, known}

-- 14 * 24 * time.Hour
abbrev pub session_duration : ℕ
session_duration = 14 * 24 * 3600

abbrev pub is_session : String → SessionRow → Bool
is_session hash row = row.token_hash == hash

-- token_hash is the primary key.
unfoldable pub insert_session : String → ℕ → ℕ → Exec (Unit {0})
insert_session hash user_id expires s =
    if any (is_session hash) s.sessions
    then (err (failed "insert session"), s)
    else let row : SessionRow = record {
      token_hash = hash;
      user_id = user_id;
      expires_at = expires;
    } in
      (ok tt, record s { sessions = s.sessions ++ row ∷ [] })

-- StartSession, with the random token; `none` is an error of the random source. The clock of the
-- server is taken to be that of the database.
unfoldable pub start_session : Crypto → Option String → ℕ → Exec (String × ℕ)
start_session c none user_id s = (err (failed "generate session token"), s)
start_session c (some token) user_id s =
    let expires = s.clock + session_duration in
    (statement "insert session" (insert_session (c.digest token) user_id expires) >>= λ _.
    pure (token, expires))
      s

-- s.token_hash = $1 AND s.expires_at > NOW()
abbrev pub is_live : String → ℕ → SessionRow → Bool
is_live hash now row = is_session hash row && ltb now row.expires_at

-- JOIN users u ON u.id = s.user_id
abbrev pub owner_of : List UserRow → Option SessionRow → Result User
owner_of users none = err no_session
owner_of users (some row) = known (find? (has_user_id row.user_id) users)

-- UserForToken
unfoldable pub user_for_token : Crypto → String → Exec User
user_for_token c token =
    statement "resolve session"
      λ s. (owner_of s.users (find? (is_live (c.digest token) s.clock) s.sessions), s)

-- EndSession
unfoldable pub end_session : Crypto → String → Exec (Unit {0})
end_session c token =
    statement "delete session"
      λ s. (ok tt, record s { sessions = delete (is_session (c.digest token)) s.sessions })
