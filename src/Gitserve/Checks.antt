-- ===== src/Gitserve/Checks.antt =====
-- What the checks of AuthHandler and of main.go's BridgeAuthorizer show when they pass.
use git_castle.Prelude.{
  false, not, ◌∙◌, if◌then◌else◌, ap, Bool, sym, refl, Bool-cases, inr, arith, true, inl, some,
  Option-cases, find?, ℕ, ◌≡◌, String,
}
use git_castle.Gitserve.Request.{Access}
use git_castle.Exec.{pure, raise, bind_ok, select_state, select_ok}
use git_castle.Db.{Db}
use git_castle.Errors.{access_denied, ok}
use git_castle.Auth.Accounts.{known, user_for_id, has_user_id, verified, has_name, authenticate}
use git_castle.Auth.Crypto.{Crypto}
use git_castle.Auth.Types.{PermissionRow, UserRow, User}
use git_castle.Repos.Types.{Repository}
use git_castle.Repos.Store.{repository_in, get_row, is_repository}
use git_castle.Auth.Permissions.{role_in, role_for, has_at_least, is_grant}
use git_castle.Gitserve.Access.{required_role, check_access}
use git_castle.Repos.Service.{valid_name, get}

-- The tables that the checks read.
abbrev pub SameTables : Db → Db → Type 0
SameTables s t =
    (t.users ≡ s.users) × (t.repositories ≡ s.repositories) × (t.permissions ≡ s.permissions)

-- A stored account with a matching password.
abbrev pub HasPassword : Crypto → Db → String → String → UserRow → Type 0
HasPassword c s username password row =
    (find? (has_name username) s.users ≡ some row) × (c.matches row.password_hash password ≡ true)

-- A stored repository, and a grant on it of at least the role.
abbrev pub HasRole : Db → ℕ → String → String → String → Type 0
HasRole s user_id owner repo required =
    (repository : Repository) × (user : UserRow) × (grant : PermissionRow) × (find?
        (is_repository owner repo) s.repositories
      ≡ some repository)
    × (find? (has_user_id user_id) s.users ≡ some user)
    × (find? (is_grant repository.id user.username) s.permissions ≡ some grant)
    × (has_at_least grant.role required ≡ true)

pub authenticate-ok :
    (c : Crypto) (username password : String) (s : Db) {user : User}
    → (authenticate c username password s).0 ≡ ok user
    → (row : UserRow) × HasPassword c s username password row × (row.id ≡ user.id)
unfolding authenticate
authenticate-ok c username password s h =
    let read = select_ok _ (λ t. verified c password (find? (has_name username) t.users)) s h in
    elim (Option-cases (find? (has_name username) s.users)) [
      | inl missing ↦ ground arith
      | inr (row, found) ↦ (row, (found, ground arith), ground arith)
    ]

get_row-ok :
    (owner repo : String) (s : Db) {repository : Repository}
    → (get_row owner repo s).0 ≡ ok repository
    → find? (is_repository owner repo) s.repositories ≡ some repository
unfolding get_row
get_row-ok owner repo s {repository} h =
    let read : repository_in (find? (is_repository owner repo) s.repositories) ≡ ok repository =
      select_ok "get repository"
        (λ t. repository_in (find? (is_repository owner repo) t.repositories)) s h in
    elim (Option-cases (find? (is_repository owner repo) s.repositories)) [
      | inl missing ↦ ground arith
      | inr (row, found) ↦ ground arith
    ]

get-ok :
    (owner repo : String) (s : Db) {repository : Repository}
    → (get owner repo s).0 ≡ ok repository
    → find? (is_repository owner repo) s.repositories ≡ some repository
unfolding get
get-ok owner repo s {repository} h = elim (Bool-cases (valid_name owner)) [
  | inr bad ↦ absurd (ground arith)
  | inl good ↦ elim (Bool-cases (valid_name repo)) [
    | inr bad ↦ absurd (ground arith)
    | inl fine ↦ get_row-ok owner repo s (rw (good, fine) at h)
  ]
]

pub get_state : (owner repo : String) (s : Db) → SameTables s (get owner repo s).1
unfolding get get_row
get_state owner repo s = elim (Bool-cases (valid_name owner)) [
  | inr bad ↦ rw bad (refl, refl, refl)
  | inl good ↦ elim (Bool-cases (valid_name repo)) [
    | inr bad ↦ rw (good, bad) (refl, refl, refl)
    | inl fine ↦
        rw
          (
            good,
            fine,
            select_state "get repository"
                (λ t. repository_in (find? (is_repository owner repo) t.repositories)) s,
          )
          (refl, refl, refl)
  ]
]

user_for_id-ok :
    (id : ℕ) (s : Db) {user : User}
    → (user_for_id id s).0 ≡ ok user
    → (row : UserRow) × (find? (has_user_id id) s.users ≡ some row) × (row.username ≡ user.username)
unfolding user_for_id
user_for_id-ok id s h =
    let read = select_ok _ (λ t. known (find? (has_user_id id) t.users)) s h in
    elim (Option-cases (find? (has_user_id id) s.users)) [
      | inl missing ↦ ground arith
      | inr (row, found) ↦ (row, found, ground arith)
    ]

user_for_id_state : (id : ℕ) (s : Db) → SameTables s (user_for_id id s).1
unfolding user_for_id
user_for_id_state id s =
    rw (select_state "lookup user by id" (λ t. known (find? (has_user_id id) t.users)) s)
      (refl, refl, refl)

role_for-ok :
    (repo : ℕ) (username : String) (s : Db) {role : String}
    → (role_for repo username s).0 ≡ ok role
    → (row : PermissionRow) × (find? (is_grant repo username) s.permissions ≡ some row)
      × (row.role ≡ role)
unfolding role_for
role_for-ok repo username s h =
    let read = select_ok _ (λ t. role_in (find? (is_grant repo username) t.permissions)) s h in
    elim (Option-cases (find? (is_grant repo username) s.permissions)) [
      | inl missing ↦ ground arith
      | inr (row, found) ↦ (row, found, ground arith)
    ]

Allowed-passed :
    (allowed : Bool) (s : Db) {t : Db}
    → (if not allowed then raise access_denied else pure (tt {0})) s ≡ (ok tt, t)
    → allowed ≡ true
Allowed-passed true s h = refl
Allowed-passed false s h = absurd (ground arith)

pub check_access-ok :
    (id : ℕ) (owner repo : String) (access : Access) (s t : Db)
    → check_access id owner repo access s ≡ (ok tt, t)
    → HasRole s id owner repo (required_role access)
unfolding check_access
check_access-ok id owner repo access s t h =
    let (repository, got, h') = bind_ok (get owner repo) _ s h in
    let s' = (get owner repo s).1 in
    let (user, known, h'') = bind_ok (user_for_id id) _ s' h' in
    let s'' = (user_for_id id s').1 in
    let (role, granted, last) = bind_ok (role_for repository.id user.username) _ s'' h'' in
    let (row, row_found, same_name) = user_for_id-ok id s' known in
    let (grant, grant_found, same_role) = role_for-ok repository.id user.username s'' granted in
    let tables = get_state owner repo s in
    let tables' = user_for_id_state id s' in
    (
      repository,
      row,
      grant,
      get-ok owner repo s got,
      rw (sym (tables.0)) row_found,
      ap (λ u. find? (is_grant repository.id u) s.permissions) same_name
          ∙ ap (find? (is_grant repository.id user.username)) (sym (tables'.2 ∙ tables.2))
          ∙ grant_found,
      rw same_role (Allowed-passed _ _ last),
    )
