-- ===== src/Auth/SessionLaws.antt =====
-- The life of a session: StartSession, UserForToken and EndSession of internal/auth/store.go.
use git_castle.Prelude.{
  ◌*◌, eq_iff, ap, find?-delete_ne, find?-delete, delete, inr, true, inl, ◌≢◌, sym, Bool-cases,
  subst, refl, eq_refl, ◌∙◌, find?-append_none, arith, ltb, any_mono, ◌∷◌, if◌then◌else◌,
  find?-none-any, ◌++◌, none, ◌+◌, ℕ, [], false, any, some, ◌≡◌, find?, String,
}
use git_castle.Auth.Types.{SessionRow, UserRow}
use git_castle.Auth.Crypto.{Crypto}
use git_castle.Db.{Db}
use git_castle.Auth.Accounts.{user_of, has_user_id}
use git_castle.Auth.Sessions.{
  owner_of, end_session, session_duration, is_live, insert_session, user_for_token, start_session,
  is_session,
}
use git_castle.Errors.{Result, no_session, err, ok}
use git_castle.Exec.{statement_up}

user_for_token_up :
    (c : Crypto) (token : String) (s : Db)
    → s.outages ≡ []
    → (user_for_token c token s).0
      ≡ owner_of s.users (find? (is_live (c.digest token) s.clock) s.sessions)
unfolding user_for_token
user_for_token_up c token s up = rw (statement_up _ _ s up)

module _ (c : Crypto) (s : Db) (token : String) (row : UserRow)
    (owner : find? (has_user_id row.id) s.users ≡ some row)
    (fresh : any (is_session (c.digest token)) s.sessions ≡ false) (up : s.outages ≡ []) where
  abbrev session : SessionRow
  session = record {
    token_hash = c.digest token;
    user_id = row.id;
    expires_at = s.clock + session_duration;
  }

  start_session_lem :
      start_session c (some token) row.id s
      ≡ (ok (token, s.clock + session_duration), record s { sessions = s.sessions ++ session ∷ [] })
  unfolding start_session insert_session
  start_session_lem = rw (statement_up _ _ s up, fresh)

  no_live_before : (now : ℕ) → find? (is_live (c.digest token) now) s.sessions ≡ none
  no_live_before now = find?-none-any (is_live (c.digest token) now) s.sessions (
      any_mono (is_live (c.digest token) now) (is_session (c.digest token)) s.sessions
        (λ x h. ground arith) fresh)

  live_after :
      (now : ℕ)
      → find? (is_live (c.digest token) now) (s.sessions ++ session ∷ [])
        ≡ (if ltb now (s.clock + session_duration) then some session else none)
  unfolding find?
  live_after now = find?-append_none _ s.sessions _ (no_live_before now) ∙ rw eq_refl (ground arith)

  -- What the lifetime says of the outcome of StartSession.
  abbrev Lives : ℕ → Result (String × ℕ) × Db → Type 0
  Lives passed r =
      (r.0 ≡ ok (token, s.clock + session_duration))
      × ((user_for_token c token (record (r.1) { clock = s.clock + passed })).0
          ≡ (if ltb passed session_duration then ok (user_of row) else err no_session))

  resolved :
      (passed : ℕ)
      → owner_of s.users
          (if ltb (s.clock + passed) (s.clock + session_duration) then some session else none)
        ≡ (if ltb passed session_duration then ok (user_of row) else err no_session)
  resolved passed = elim (Bool-cases (ltb passed session_duration)) [
    | inl soon ↦
        let same : ltb (s.clock + passed) (s.clock + session_duration) ≡ true = ground arith in
        rw (same, soon, owner)
    | inr late ↦
        let same : ltb (s.clock + passed) (s.clock + session_duration) ≡ false = ground arith in
        rw (same, late)
  ]

  lives :
      (passed : ℕ)
      → Lives passed (
        ok (token, s.clock + session_duration),
        record s { sessions = s.sessions ++ session ∷ [] },
      )
  lives passed = (
    refl,
    user_for_token_up c token
          (record s { sessions = s.sessions ++ session ∷ []; clock = s.clock + passed }) up
        ∙ rw (live_after (s.clock + passed)) (resolved passed),
  )

  -- With a token whose digest is new, for an existing user and without outages, StartSession
  -- succeeds, and from then on the token resolves to the user while fewer than 14 days have passed,
  -- and to "no valid session" afterwards.
  pub session_lifetime :
      (passed : ℕ)
      → let started = start_session c (some token) row.id s in
        (started.0 ≡ ok (token, s.clock + (14 * 24 * 3600)))
        × ((user_for_token c token (record (started.1) { clock = s.clock + passed })).0
            ≡ (if ltb passed (14 * 24 * 3600) then ok (user_of row) else err no_session))
  session_lifetime passed = subst (Lives passed) (sym start_session_lem) (lives passed)

ended : String → Db → Db
ended hash s = record s { sessions = delete (is_session hash) s.sessions }

live-ended :
    (hash other : String) (s : Db) (now : ℕ)
    → other ≢ hash
    → find? (is_live other now) (ended hash s).sessions ≡ find? (is_live other now) s.sessions
unfolding ended
live-ended hash other s now differs =
    find?-delete_ne (is_live other now) (is_session hash) s.sessions
      (λ x h. ground (arith, eq_iff x.token_hash other, eq_iff x.token_hash hash))

-- After EndSession of a token, without outages, that token resolves to no session, and every token
-- of another digest resolves as before.
pub end_session_lem :
    (c : Crypto) (token other : String) (s : Db)
    → s.outages ≡ []
    → let after = end_session c token s in
      (after.0 ≡ ok tt)
      × ((user_for_token c token (after.1)).0 ≡ err no_session)
      × (c.digest other ≢ c.digest token
          → (user_for_token c other (after.1)).0 ≡ (user_for_token c other s).0)
unfolding end_session ended
end_session_lem c token other s up = rw (statement_up _ _ s up) (
  refl,
  user_for_token_up c token (ended (c.digest token) s) up
      ∙ rw (
          find?-delete (is_live (c.digest token) s.clock) (is_session (c.digest token)) s.sessions
            (λ x h. ground arith)),
  λ differs.
      user_for_token_up c other (ended (c.digest token) s) up
      ∙ ap (owner_of s.users) (live-ended (c.digest token) (c.digest other) s s.clock differs)
      ∙ sym (user_for_token_up c other s up),
)
