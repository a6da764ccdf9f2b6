-- ===== src/Auth/Permissions.antt =====
-- Repository permissions: internal/auth/permissions.go.
use git_castle.Prelude.{
  [], ◌∷◌, ◌++◌, none, update, some, find?, delete, any, ◌||◌, ◌&&◌, not, ◌==◌, leb, if◌then◌else◌,
  eqb, ℕ, Option, Bool, String,
}
use git_castle.Auth.Types.{PermissionRow}
use git_castle.Errors.{plain, permission_not_found, ok, err, Result}
use git_castle.Exec.{raise, statement, Exec}
use git_castle.Prelude.Text.{append}

abbrev pub is_role : String → Bool
is_role role = role == "read" || role == "write" || role == "admin"

abbrev pub is_grant : ℕ → String → PermissionRow → Bool
is_grant repo username row = eqb row.repository_id repo && row.username == username

abbrev pub with_role : String → PermissionRow → PermissionRow
with_role role row = record row { role = role }

-- INSERT … ON CONFLICT (repository_id, username) DO UPDATE
unfoldable pub put_grant : ℕ → String → String → Exec (Unit {0})
put_grant repo username role s =
    let row : PermissionRow = record { repository_id = repo; username = username; role = role } in
    (
      ok tt,
      record s {
        permissions =
            if any (is_grant repo username) s.permissions
            then update (is_grant repo username) (with_role role) s.permissions
            else s.permissions ++ row ∷ [];
      },
    )

-- Grant
unfoldable pub grant : ℕ → String → String → Exec (Unit {0})
grant repo username role =
    if not (is_role role)
    then raise (plain (append "invalid role " role))
    else statement "grant permission" (put_grant repo username role)

-- Revoke
unfoldable revoke : ℕ → String → Exec (Unit {0})
revoke repo username =
    statement "revoke permission"
      λ s. (ok tt, record s { permissions = delete (is_grant repo username) s.permissions })

abbrev pub role_in : Option PermissionRow → Result String
role_in none = err permission_not_found
role_in (some row) = ok row.role

-- RoleFor
unfoldable pub role_for : ℕ → String → Exec String
role_for repo username =
    statement "lookup permission" λ s. (role_in (find? (is_grant repo username) s.permissions), s)

-- The map of ranks; a missing key reads as 0.
abbrev pub rank : String → ℕ
rank role =
    if role == "read" then 1 else if role == "write" then 2 else if role == "admin" then 3 else 0

-- HasAtLeast
unfoldable pub has_at_least : String → String → Bool
has_at_least role required = leb (rank required) (rank role)
