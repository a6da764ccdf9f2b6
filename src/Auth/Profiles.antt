-- ===== src/Auth/Profiles.antt =====
-- Profiles: internal/auth/profile.go.
use git_castle.Prelude.{
  find?, update, none, ◌==◌, ◌+◌, some, ◌&&◌, not, leb, false, ◌||◌, true, ltb, if◌then◌else◌, eqb,
  ℕ, Option, Bool, String,
}
use git_castle.Auth.Types.{UserRow, Profile}
use git_castle.Exec.{statement, raise, Exec}
use git_castle.Prelude.Text.{any_char, byte_length, is_space, trim}
use git_castle.Errors.{ok, invalid_username, plain, permission_not_found, err, Result}
use Prim.Native.Char.{code}
use git_castle.Auth.Accounts.{has_name, valid_username}

abbrev pub max_profile_field : ℕ
max_profile_field = 500

abbrev pub profile_of : UserRow → Profile
profile_of row = record {
  username = row.username;
  display_name = row.display_name;
  bio = row.bio;
  location = row.location;
  website = row.website;
  joined_at = row.created_at;
}

abbrev pub profile_in : Option UserRow → Result Profile
profile_in none = err permission_not_found
profile_in (some row) = ok (profile_of row)

-- GetProfile; a missing user is reported by the package's ErrNotFound, that of permissions.
pub get_profile : String → Exec Profile
get_profile username =
    if not (valid_username username)
    then raise invalid_username
    else statement "get profile" λ s. (profile_in (find? (has_name username) s.users), s)

abbrev lower_char : ℕ → ℕ
lower_char c = if leb b'A' c && leb c b'Z' then c + 32 else c

-- strings.HasPrefix(strings.ToLower(raw), prefix) for a prefix in lower-case ASCII
pub has_prefix_lower : String → String → Bool
has_prefix_lower s String.[] = true
has_prefix_lower String.[] (String.◌∷◌ p ps) = false
has_prefix_lower (String.◌∷◌ c s) (String.◌∷◌ p ps) =
    eqb (lower_char (code c)) (code p) && has_prefix_lower s ps

-- The characters of " \t\r\n\"'<>()".
abbrev pub url_forbidden : ℕ → Bool
url_forbidden c =
    eqb c 32
    || eqb c 9
    || eqb c 13
    || eqb c 10
    || eqb c 34
    || eqb c 39
    || eqb c 60
    || eqb c 62
    || eqb c 40
    || eqb c 41

-- isPlausibleURL
pub is_plausible_url : String → Bool
is_plausible_url raw =
    (has_prefix_lower raw "http://" || has_prefix_lower raw "https://")
    && not (any_char url_forbidden raw)
    && leb (byte_length raw) 2000

abbrev pub trim_space : String → String
trim_space = trim is_space

abbrev pub edited : Profile → UserRow → UserRow
edited p row = record row {
  display_name = trim_space p.display_name;
  bio = p.bio;
  location = trim_space p.location;
  website = trim_space p.website;
}

abbrev pub updated : String → Profile → Option UserRow → Exec Profile
updated username p none s = (err permission_not_found, s)
updated username p (some row) s = (
  ok (profile_of (edited p row)),
  record s { users = update (has_name username) (edited p) s.users },
)

abbrev pub too_long : String → Bool
too_long field = ltb max_profile_field (byte_length field)

-- UpdateProfile
unfoldable pub update_profile : String → Profile → Exec Profile
update_profile username p =
    if too_long p.display_name || too_long p.bio || too_long p.location
    then raise (plain "profile field exceeds 500 characters")
    else if not (p.website == "") && not (is_plausible_url p.website)
    then raise (plain "website must be an http(s) URL")
    else statement "update profile" λ s. updated username p (find? (has_name username) s.users) s
