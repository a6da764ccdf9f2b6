-- ===== src/Tests/Auth.antt =====
-- Witnesses for internal/auth.
use git_castle.Tests.Samples.{server, alice}
use git_castle.Auth.Accounts.{user_of, has_name, verified, authenticate, insert_user, create_user}
use git_castle.Auth.Sessions.{user_for_token, start_session, end_session}
use git_castle.Auth.Types.{User}
use git_castle.Db.{Db}
use git_castle.Prelude.{
  ◌*◌, refl, eq_iff, arith, ltb, ◌⊎◌, if◌then◌else◌, false, ◌≢◌, ◌+◌, ◌↔◌, some, String, true, ◌≡◌,
  ◌∷◌, any, [], find?,
}
use git_castle.Auth.Crypto.{plain_crypto}
use git_castle.Errors.{no_session, err, ok}
use git_castle.Auth.SessionLaws.{session_lifetime, end_session_lem}
use git_castle.Auth.Login.{register_then_login}

abbrev tables : Db
tables = server "open" [] []

abbrev bob : User
bob = record { id = 2; username = "bob"; created_at = 9 }

abbrev with_bob : Db
with_bob = (create_user plain_crypto "salt" "bob" "open sesame" tables).1

register_then_login_example :
    (authenticate plain_crypto "bob" "open sesame" with_bob ≡ (ok bob, with_bob))
    × (bob.username ≡ "bob")
    × ((other attempt : String)
        → other ≢ "bob"
        → authenticate plain_crypto other attempt with_bob
          ≡ (verified plain_crypto attempt (find? (has_name other) tables.users), with_bob))
unfolding create_user insert_user git_castle.Auth.Accounts.valid_username
    git_castle.Prelude.Text.byte_length git_castle.Prelude.Text.all_chars git_castle.Exec.statement
    git_castle.Db.down any git_castle.Db.later
register_then_login_example =
    register_then_login plain_crypto
      (λ salt password hash made. ground (arith, eq_iff hash password)) "salt" "bob" "open sesame"
      bob tables with_bob refl refl

session_lifetime_example :
    let started = start_session plain_crypto (some "token") 1 tables in
    (started.0 ≡ ok ("token", 9 + 14 * 24 * 3600))
    × ((user_for_token plain_crypto "token" (record (started.1) { clock = 9 + 60 })).0
        ≡ (if ltb 60 (14 * 24 * 3600) then ok (user_of alice) else err no_session))
unfolding find? any
session_lifetime_example = session_lifetime plain_crypto tables "token" alice refl refl refl 60

abbrev logged_in : Db
logged_in = record tables {
  sessions =
      record { token_hash = "old"; user_id = 1; expires_at = 100 }
      ∷ record { token_hash = "new"; user_id = 1; expires_at = 200 }
      ∷ [];
}

end_session_lem_example :
    let after = end_session plain_crypto "old" logged_in in
    (after.0 ≡ ok tt)
    × ((user_for_token plain_crypto "old" (after.1)).0 ≡ err no_session)
    × (plain_crypto.digest "new" ≢ plain_crypto.digest "old"
        → (user_for_token plain_crypto "new" (after.1)).0
          ≡ (user_for_token plain_crypto "new" logged_in).0)
end_session_lem_example = end_session_lem plain_crypto "old" "new" logged_in refl
