-- ===== src/Auth/Roles.antt =====
-- Roles: internal/auth/permissions.go.
use git_castle.Prelude.{eq_iff, arith, ◌≢◌, ◌⊎◌, false, ◌↔◌, true, ◌≡◌, String}
use git_castle.Auth.Permissions.{is_role, has_at_least}

-- HasAtLeast orders the three roles: "read" below "write" below "admin"; a text that is no role
-- meets only a requirement that is no role either, which anybody meets.
pub has_at_least_iff :
    (role required : String)
    → (has_at_least role required ≡ true) ↔ (
        (is_role required ≡ false)
        ⊎ (role ≡ "admin")
        ⊎ ((role ≡ "write") × (required ≢ "admin"))
        ⊎ ((role ≡ "read") × (required ≡ "read")))
unfolding has_at_least
has_at_least_iff role required = ground (
  arith,
  eq_iff role "read",
  eq_iff role "write",
  eq_iff role "admin",
  eq_iff required "read",
  eq_iff required "write",
  eq_iff required "admin",
  eq_iff "read" "write",
  eq_iff "read" "admin",
  eq_iff "write" "admin",
)
