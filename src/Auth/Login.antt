-- ===== src/Auth/Login.antt =====
-- Registration and login: CreateUser and Authenticate of internal/auth/store.go together.
use git_castle.Prelude.{
  none, find?-append, sym, eq_refl, eq_iff, ◌∷◌, ◌∙◌, find?-none-any, ◌++◌, refl, inr,
  find?-append_none, inl, arith, [], some, false, Option-cases, ◌≢◌, ◌≡◌, any, Option, find?,
  String,
}
use git_castle.Auth.Types.{User}
use git_castle.Auth.Crypto.{HashMatches, Crypto}
use git_castle.Auth.Accounts.{
  verified, user_of, new_row, stored, has_name, insert_user, create_user, authenticate,
}
use git_castle.Db.{Db}
use git_castle.Errors.{ok}
use git_castle.Exec.{statement_up, next, statement_cases}

module _ (c : Crypto) (matches : HashMatches c) (salt username password : String)
    (user : User) where
  -- What a successful insertion has done.
  abbrev Inserted : Db → Db → String → Type 0
  Inserted s t hash =
      (any (has_name username) s.users ≡ false)
      × (user ≡ user_of (new_row username hash s))
      × (t.users ≡ s.users ++ new_row username hash s ∷ [])

  insert_user-ok :
      (s t : Db) (hash : String) → insert_user username hash s ≡ (ok user, t) → Inserted s t hash
  unfolding insert_user
  insert_user-ok s t hash e = ground arith

  stored-ok :
      (s t : Db) (made : Option String)
      → c.hash salt password ≡ made
      → stored username made s ≡ (ok user, t)
      → (hash : String) × (c.hash salt password ≡ some hash) × Inserted s t hash
  stored-ok s t none m e = cc
  stored-ok s t (some hash) m e = (
    hash,
    m,
    elim (statement_cases "insert user" (insert_user username hash) s) [
      | inl lost ↦ cc
      | inr done ↦ insert_user-ok (next s) t hash (sym done ∙ e)
    ],
  )

  create_user-ok :
      (s t : Db)
      → create_user c salt username password s ≡ (ok user, t)
      → (hash : String) × (c.hash salt password ≡ some hash) × Inserted s t hash
  unfolding create_user
  create_user-ok s t e = stored-ok s t (c.hash salt password) refl (ground arith)

  found_new :
      (s t : Db) (hash : String)
      → Inserted s t hash
      → find? (has_name username) t.users ≡ some (new_row username hash s)
  unfolding find?
  found_new s t hash (free, _, added) = rw added (
      find?-append_none (has_name username) s.users _
        (find?-none-any (has_name username) s.users free)
      ∙ rw eq_refl)

  found_other :
      (s t : Db) (hash other : String)
      → Inserted s t hash
      → other ≢ username
      → find? (has_name other) t.users ≡ find? (has_name other) s.users
  unfolding find?
  found_other s t hash other (_, _, added) differs =
      rw added (elim (Option-cases (find? (has_name other) s.users)) [
        | inl missing ↦
            find?-append_none (has_name other) s.users _ missing
            ∙ ground (arith, eq_iff username other, missing)
        | inr (row, found) ↦ find?-append (has_name other) s.users _ row found ∙ sym found
      ])

  -- After a successful registration, whatever outages it went through, a login with the same name
  -- and password succeeds and returns the new user, and changes nothing; a login under any other
  -- name is answered as before the registration.
  pub register_then_login :
      (s t : Db)
      → create_user c salt username password s ≡ (ok user, t)
      → t.outages ≡ []
      → (authenticate c username password t ≡ (ok user, t))
        × (user.username ≡ username)
        × ((other attempt : String)
            → other ≢ username
            → authenticate c other attempt t
              ≡ (verified c attempt (find? (has_name other) s.users), t))
  unfolding authenticate
  register_then_login s t e up =
      let (hash, made, ins) = create_user-ok s t e in
      (
        rw (statement_up _ _ t up, found_new s t hash ins, matches salt password hash made)
            (rw ins.1),
        rw ins.1,
        λ other attempt differs.
            rw (statement_up _ _ t up, found_other s t hash other ins differs) refl,
      )
