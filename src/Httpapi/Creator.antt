-- ===== src/Httpapi/Creator.antt =====
-- The creator of a repository and its role.
use git_castle.Auth.Permissions.{role_in, role_for, grant, with_role, put_grant, is_grant}
use git_castle.Httpapi.Repositories.{with_owner, in_world, create_repository}
use git_castle.Prelude.{
  false, true, none, Bool, ap, find?-sat, find?-update, any-find?-some, eq_iff, eqb_iff, arith, [],
  ◌∷◌, find?-append_none, any-find?-none, refl, inr, inl, Option-cases, some, ◌≡◌, find?, String, ℕ,
}
use git_castle.Db.{Db}
use git_castle.Auth.Types.{User, PermissionRow}
use git_castle.Repos.Types.{CreateInput, Repository}
use git_castle.Repos.Service.{create, Os, World}
use git_castle.Httpapi.Reply.{write_json, try, repository_body, Reply}
use git_castle.Errors.{ok}
use git_castle.Exec.{statement_up}
use git_castle.Audit.Store.{insert_entry, record_entry}
use git_castle.Prelude.Text.{append}

put_grant-find :
    (repo : ℕ) (username role : String) (s : Db)
    → (row : PermissionRow) × (find?
          (is_grant repo username)
          (put_grant repo username role s).1.permissions
        ≡ some row)
      × (row.role ≡ role)
unfolding put_grant find?
put_grant-find repo username role s =
    elim (Option-cases (find? (is_grant repo username) s.permissions)) [
      | inl missing ↦
          let new : PermissionRow = record {
            repository_id = repo;
            username = username;
            role = role;
          } in
          (
            new,
            rw
                (
                  any-find?-none (is_grant repo username) s.permissions missing,
                  find?-append_none (is_grant repo username) s.permissions (new ∷ []) missing,
                )
                (ground (arith, eqb_iff repo repo, eq_iff username username)),
            refl,
          )
      | inr (row, found) ↦ (
        with_role role row,
        rw
            (
              any-find?-some (is_grant repo username) s.permissions row found,
              find?-update (is_grant repo username) (is_grant repo username) (with_role role)
                  s.permissions (λ x _. refl),
              found,
              find?-sat (is_grant repo username) s.permissions row found,
            )
            refl,
        refl,
      )
    ]

-- What the reply to a created repository comes with.
abbrev pub IsCreated : User → Repository → World → Reply × World → Type 0
IsCreated user repository v (reply, after) =
    (reply.status ≡ 201)
    × (reply.body ≡ repository_body repository)
    × ((role_for repository.id user.username after.db).0 ≡ ok "admin")
    × (after.db.repositories ≡ v.db.repositories)
    × (after.disk ≡ v.disk)

module _ (user : User) (repository : Repository) (v : World) where
  granted-IsCreated :
      (db : Db)
      → db.outages ≡ []
      → db.repositories ≡ v.db.repositories
      → IsCreated user repository v (
          in_world v.disk (
            try
              (grant repository.id user.username "admin")
              (λ _. write_json 201 (repository_body repository))
              db))
  unfolding grant role_for put_grant
  granted-IsCreated db up same =
      let (row, found, role) = put_grant-find repository.id user.username "admin" db in
      let done = (put_grant repository.id user.username "admin" db).1 in
      rw (statement_up "grant permission" (put_grant repository.id user.username "admin") db up) (
        refl,
        refl,
        rw
            (
              statement_up "lookup permission"
                  (λ t. (role_in (find? (is_grant repository.id user.username) t.permissions), t))
                  done up,
              found,
            )
            (ap ok role),
        same,
        refl,
      )

  -- When Create succeeds and no outage follows, the route replies 201 with the repository, the
  -- caller has the role "admin" on it, whoever the owner in the request is, and the stored
  -- repositories and the disk are as Create left them.
  pub creator_is_admin :
      (os : Os) (root : String) (has_audit : Bool) (ip : String) (input : CreateInput) (w : World)
      → create os root (with_owner user input) w ≡ (ok repository, v)
      → v.db.outages ≡ []
      → IsCreated user repository v (create_repository os root has_audit ip user (some input) w)
  unfolding create_repository record_entry insert_entry
  creator_is_admin os root true ip input w made up =
      rw
        (
          made,
          statement_up "insert audit entry"
              (insert_entry user.username "repository_created"
                (append repository.owner (append "/" repository.name)) none ip)
              v.db up,
        )
        (granted-IsCreated
          (insert_entry user.username "repository_created"
            (append repository.owner (append "/" repository.name)) none ip v.db).1
          up refl)
  creator_is_admin os root false ip input w made up = rw made (granted-IsCreated v.db up refl)
