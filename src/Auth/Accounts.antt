-- ===== src/Auth/Accounts.antt =====
-- Accounts of internal/auth/store.go.
use git_castle.Prelude.{
  [], ◌∷◌, ◌++◌, suc, none, ltb, ◌||◌, some, ◌&&◌, not, find?, any, ◌==◌, leb, if◌then◌else◌, eqb,
  ℕ, Option, Bool, String,
}
use git_castle.Auth.Types.{UserRow, User}
use git_castle.Auth.Crypto.{Crypto}
use git_castle.Db.{Db}
use git_castle.Exec.{statement, raise, Exec}
use git_castle.Errors.{
  weak_password, ok, user_exists, no_session, invalid_username, bad_credentials, failed, err,
  Result,
}
use git_castle.Prelude.Text.{all_chars, byte_length}

abbrev pub username_char : ℕ → Bool
username_char r =
    leb b'a' r && leb r b'z'
    || leb b'A' r && leb r b'Z'
    || leb b'0' r && leb r b'9'
    || eqb r b'-'
    || eqb r b'_'

-- validateUsername
unfoldable pub valid_username : String → Bool
valid_username username =
    leb 1 (byte_length username)
    && leb (byte_length username) 40
    && all_chars username_char username

abbrev pub has_name : String → UserRow → Bool
has_name username row = row.username == username

abbrev pub user_of : UserRow → User
user_of row = record { id = row.id; username = row.username; created_at = row.created_at }

abbrev pub new_row : String → String → Db → UserRow
new_row username hash s = record {
  id = s.user_seq;
  username = username;
  password_hash = hash;
  created_at = s.clock;
  display_name = "";
  bio = "";
  location = "";
  website = "";
}

-- The username is UNIQUE; a violation is error 23505, and uses up an id.
unfoldable pub insert_user : String → String → Exec User
insert_user username hash s =
    if any (has_name username) s.users
    then (err user_exists, record s { user_seq = suc s.user_seq })
    else (
      ok (user_of (new_row username hash s)),
      record s { users = s.users ++ new_row username hash s ∷ []; user_seq = suc s.user_seq },
    )

abbrev pub stored : String → Option String → Exec User
stored username none = raise (failed "hash password")
stored username (some hash) = statement "insert user" (insert_user username hash)

-- CreateUser
unfoldable pub create_user : Crypto → String → String → String → Exec User
create_user c salt username password =
    if not (valid_username username)
    then raise invalid_username
    else if ltb (byte_length password) 8
    then raise weak_password
    else stored username (c.hash salt password)

abbrev pub verified : Crypto → String → Option UserRow → Result User
verified c password none = err bad_credentials
verified c password (some row) =
    if c.matches row.password_hash password then ok (user_of row) else err bad_credentials

-- Authenticate; the comparison that only burns time is left out.
unfoldable pub authenticate : Crypto → String → String → Exec User
authenticate c username password =
    statement "lookup user" λ s. (verified c password (find? (has_name username) s.users), s)

abbrev pub has_user_id : ℕ → UserRow → Bool
has_user_id id row = eqb row.id id

abbrev pub known : Option UserRow → Result User
known none = err no_session
known (some row) = ok (user_of row)

-- UserForID
unfoldable pub user_for_id : ℕ → Exec User
user_for_id id = statement "lookup user by id" λ s. (known (find? (has_user_id id) s.users), s)
