-- ===== src/Httpapi/LoginLaws.antt =====
-- From a login to the user of the next request.
use git_castle.Httpapi.Reply.{error_status, answer}
use git_castle.Auth.SessionLaws.{session_lifetime}
use git_castle.Httpapi.Session.{start_for, login, current_user}
use git_castle.Auth.Crypto.{Crypto}
use git_castle.Prelude.{
  ◌*◌, ltb, ◌∷◌, refl, none, ◌+◌, true, Bool, arith, any, false, ◌==◌, ℕ, if◌then◌else◌, some,
  find?, [], ◌≡◌, String,
}
use git_castle.Db.{Db}
use git_castle.Auth.Types.{User, UserRow}
use git_castle.Auth.Accounts.{has_user_id, verified, user_of, authenticate, has_name}
use git_castle.Errors.{no_session, Result, err, ok}
use git_castle.Exec.{statement_up}
use git_castle.Httpapi.Reply.{write_json, after, set_cookie, user_body, Reply, Route}
use git_castle.Audit.Store.{insert_entry, record_entry}
use git_castle.Auth.Sessions.{start_session, is_session}

answer-ok :
    {A : Type 0} (x : Result A × Db) (f : A → Route) (s : Db) {a : A}
    → x.0 ≡ ok a
    → answer x f s ≡ f a x.1
answer-ok (ok b, t) f s h = ground arith
answer-ok (err e, t) f s h = absurd (ground arith)

-- A reply that gives the caller a session of the user: its cookie resolves to the user for 14 days.
abbrev pub SignsIn : Crypto → String → ℕ → User → Reply × Db → Type 0
SignsIn c token now user (reply, t) =
    (reply.status ≡ 200)
    × (reply.body ≡ user_body user)
    × (reply.effects ≡ set_cookie token (now + (14 * 24 * 3600)) ∷ [])
    × ((passed : ℕ)
        → (current_user c token (record t { clock = now + passed })).0
          ≡ (if ltb passed (14 * 24 * 3600) then ok user else err no_session))

module _ (c : Crypto) (token : String) (row : UserRow) (filled : (token == "") ≡ false) where
  start_for-SignsIn :
      (s : Db)
      → s.outages ≡ []
      → find? (has_user_id row.id) s.users ≡ some row
      → any (is_session (c.digest token)) s.sessions ≡ false
      → SignsIn c token s.clock (user_of row) (start_for c (some token) (user_of row) s)
  unfolding current_user
  start_for-SignsIn s up owner fresh =
      let lives = session_lifetime c s token row owner fresh up in
      rw
        (answer-ok (start_session c (some token) row.id s)
          (λ started t.
            after (set_cookie started.0 started.1 ∷ [])
              (write_json 200 (user_body (user_of row)) t))
          s ((lives 0).0))
        (refl, refl, refl, λ passed. rw filled ((lives passed).1))

  -- Without outages, for a stored account and a new token: with the right password the login
  -- replies 200 with the account and sets a cookie that resolves to it for 14 days, and to no
  -- session after that; with another password it replies 401, sets no cookie and adds no session.
  pub login_lem :
      (has_audit : Bool) (ip username password : String) (s : Db)
      → s.outages ≡ []
      → find? (has_name username) s.users ≡ some row
      → find? (has_user_id row.id) s.users ≡ some row
      → any (is_session (c.digest token)) s.sessions ≡ false
      → let after = login c has_audit (some token) ip (some (username, password)) s in
        (c.matches row.password_hash password ≡ true → SignsIn c token s.clock (user_of row) after)
        × (c.matches row.password_hash password ≡ false
            → (after.0.status ≡ 401) × (after.0.effects ≡ []) × (after.1.sessions ≡ s.sessions))
  unfolding login authenticate record_entry insert_entry error_status
  login_lem true ip username password s up found owner fresh =
      let lookup =
        statement_up "lookup user"
          (λ t. (verified c password (find? (has_name username) t.users), t)) s up in
      (
        (λ right.
            rw
              (
                lookup,
                found,
                right,
                statement_up "insert audit entry"
                    (insert_entry row.username "login" row.username none ip) s up,
              )
              (start_for-SignsIn (insert_entry row.username "login" row.username none ip s).1 up
                owner fresh)),
        (λ wrong.
            rw
              (
                lookup,
                found,
                wrong,
                statement_up "insert audit entry"
                    (insert_entry username "login_failed" username none ip) s up,
              )
              (refl, refl, refl)),
      )
  login_lem false ip username password s up found owner fresh =
      let lookup =
        statement_up "lookup user"
          (λ t. (verified c password (find? (has_name username) t.users), t)) s up in
      (
        (λ right. rw (lookup, found, right) (start_for-SignsIn s up owner fresh)),
        (λ wrong. rw (lookup, found, wrong) (refl, refl, refl)),
      )
