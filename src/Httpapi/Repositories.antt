-- ===== src/Httpapi/Repositories.antt =====
-- The repository routes of internal/httpapi/handler.go. A route that writes to the disk works on the
-- database and the disk together.
use git_castle.Auth.Types.{User}
use git_castle.Auth.Permissions.{grant}
use git_castle.Repos.Types.{Repository, CreateInput}
use git_castle.Repos.Service.{Os, World, create, get, list}
use git_castle.Httpapi.Reply.{
  Reply, Route, write_json, write_error, repository_body, repositories_body, error_body, try,
}
use git_castle.Httpapi.Session.{audited}
use git_castle.Prelude.{none, ◌==◌, some, if◌then◌else◌, Option, String, List, Bool}
use git_castle.Db.{Db}
use git_castle.Errors.{ok, err, Result}
use git_castle.Prelude.Text.{append}

abbrev pub in_world : List String → Reply × Db → Reply × World
in_world disk (reply, db) = (reply, record { db = db; disk = disk })

-- What follows a successful Create: the audit record and the grant to the creator
abbrev pub granted : Bool → String → User → Repository → Route
granted has_audit ip user repository =
    audited has_audit user.username "repository_created"
      (append repository.owner (append "/" repository.name)) ip
      (try (grant repository.id user.username "admin")
        λ _. write_json 201 (repository_body repository))

abbrev pub created : Bool → String → User → Result Repository × World → Reply × World
created has_audit ip user (err e, w) = in_world w.disk (write_error e w.db)
created has_audit ip user (ok repository, w) =
    in_world w.disk (granted has_audit ip user repository w.db)

abbrev pub with_owner : User → CreateInput → CreateInput
with_owner user input = if input.owner == "" then record input { owner = user.username } else input

-- createRepository, with a permission granter; none is a body that is no JSON
unfoldable pub create_repository :
    Os → String → Bool → String → User → Option CreateInput → World → Reply × World
create_repository os root has_audit ip user none w =
    in_world w.disk (write_json 400 (error_body "invalid JSON body") w.db)
create_repository os root has_audit ip user (some input) w =
    created has_audit ip user (create os root (with_owner user input) w)

-- getRepository
abbrev pub get_repository : String → String → Route
get_repository owner name =
    try (get owner name) λ repository. write_json 200 (repository_body repository)

-- listRepositories
abbrev pub list_repositories : Route
list_repositories = try list λ repositories. write_json 200 (repositories_body repositories)
