-- ===== src/Gitserve/Served.antt =====
-- Which requests reach git http-backend when the database answers.
use git_castle.Prelude.{
  eq_iff, sym, false≢true, inl, inr, Bool-cases, ◌∙◌, false, ◌==◌, ap, some, true, find?, ℕ, [],
  refl, ◌≡◌, String,
}
use git_castle.Gitserve.Request.{parse_owner_repo, Access, GitRequest}
use git_castle.Exec.{statement_up}
use git_castle.Db.{Db}
use git_castle.Auth.Crypto.{Crypto}
use git_castle.Gitserve.Access.{
  with_credentials, backend, access_of, authorize, serve_git, required_role, check_access,
  authenticate_id,
}
use git_castle.Auth.Accounts.{
  user_of, has_user_id, known, has_name, verified, user_for_id, authenticate,
}
use git_castle.Repos.Service.{valid_name, get}
use git_castle.Auth.Types.{PermissionRow, UserRow}
use git_castle.Repos.Store.{is_repository, repository_in, get_row}
use git_castle.Gitserve.Checks.{HasRole, HasPassword}
use git_castle.Auth.Permissions.{role_in, is_grant, role_for}
use git_castle.Errors.{ok}
use git_castle.Repos.Types.{Repository}
use git_castle.Gitserve.Authorised.{IsSignedIn}

valid_name-nonempty : (name : String) → valid_name name ≡ true → (name == "") ≡ false
unfolding valid_name
valid_name-nonempty name h = elim (Bool-cases (name == "")) [
  | inr filled ↦ filled
  | inl empty ↦ absurd (false≢true (ap valid_name (sym ((eq_iff name "").0 empty)) ∙ h))
]

module _ (c : Crypto) (s : Db) (up : s.outages ≡ []) where
  pub authenticate_id_up :
      (username password : String) (row : UserRow)
      → HasPassword c s username password row
      → authenticate_id c username password s ≡ (ok row.id, s)
  unfolding authenticate_id authenticate
  authenticate_id_up username password row (found, matches) =
      rw
        (
          statement_up "lookup user"
              (λ t. (verified c password (find? (has_name username) t.users), t)) s up,
          found,
          matches,
        )
        refl

  get_up :
      (owner repo : String) (repository : Repository)
      → valid_name owner ≡ true
      → valid_name repo ≡ true
      → find? (is_repository owner repo) s.repositories ≡ some repository
      → get owner repo s ≡ (ok repository, s)
  unfolding get get_row
  get_up owner repo repository good fine r =
      rw
        (
          good,
          fine,
          statement_up "get repository"
              (λ t. (repository_in (find? (is_repository owner repo) t.repositories), t)) s up,
          r,
        )
        refl

  user_for_id_up :
      (id : ℕ) (row : UserRow)
      → find? (has_user_id id) s.users ≡ some row
      → user_for_id id s ≡ (ok (user_of row), s)
  unfolding user_for_id
  user_for_id_up id row u =
      rw
        (
          statement_up "lookup user by id" (λ t. (known (find? (has_user_id id) t.users), t)) s up,
          u,
        )
        refl

  role_for_up :
      (repo : ℕ) (username : String) (row : PermissionRow)
      → find? (is_grant repo username) s.permissions ≡ some row
      → role_for repo username s ≡ (ok row.role, s)
  unfolding role_for
  role_for_up repo username row g =
      rw
        (
          statement_up "lookup permission"
              (λ t. (role_in (find? (is_grant repo username) t.permissions), t)) s up,
          g,
        )
        refl

  check_access_up :
      (id : ℕ) (owner repo : String) (access : Access)
      → valid_name owner ≡ true
      → valid_name repo ≡ true
      → HasRole s id owner repo (required_role access)
      → check_access id owner repo access s ≡ (ok tt, s)
  unfolding check_access
  check_access_up id owner repo access good fine (repository, user, grant, r, u, g, role) =
      rw
        (
          get_up owner repo repository good fine r,
          user_for_id_up id user u,
          role_for_up repository.id user.username grant g,
          role,
        )
        refl

  pub serve_git_served :
      (r : GitRequest) (row : UserRow)
      → IsSignedIn c s r row
      → let (owner, repo) = parse_owner_repo r.path in
        valid_name owner ≡ true
        → valid_name repo ≡ true
        → HasRole s row.id owner repo (required_role (access_of r))
        → serve_git c r s ≡ (backend, s)
  unfolding serve_git authorize
  serve_git_served r row (username, password, given, named, has) good fine role =
      ap (λ g. with_credentials c r g s) given
      ∙ rw
          (
            named,
            authenticate_id_up username password row has,
            valid_name-nonempty _ good,
            check_access_up row.id _ _ (access_of r) good fine role,
          )
          refl
