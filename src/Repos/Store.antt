-- ===== src/Repos/Store.antt =====
-- PostgresStore of internal/repos/store.go.
use git_castle.Prelude.{
  none, [], ◌++◌, suc, some, leb, ◌&&◌, eqb, ◌||◌, ◌==◌, ltb, find?, any, ◌∷◌, if◌then◌else◌, Bool,
  Option, List, String,
}
use git_castle.Exec.{statement, Exec}
use git_castle.Repos.Types.{Repository}
use git_castle.Errors.{repository_not_found, repository_exists, ok, err, Result}

-- UNIQUE (owner, name), and path UNIQUE
abbrev pub is_repository : String → String → Repository → Bool
is_repository owner name row = row.owner == owner && row.name == name

abbrev pub takes : String → String → String → Repository → Bool
takes owner name path row = is_repository owner name row || row.path == path

unfoldable pub insert_repository : String → String → String → Exec Repository
insert_repository owner name path s =
    let row : Repository = record {
      id = s.repository_seq;
      owner = owner;
      name = name;
      path = path;
      created_at = s.clock;
    } in
    if any (takes owner name path) s.repositories
    then (err repository_exists, record s { repository_seq = suc s.repository_seq })
    else (
      ok row,
      record s { repositories = s.repositories ++ row ∷ []; repository_seq = suc s.repository_seq },
    )

-- Create
unfoldable pub create_row : String → String → String → Exec Repository
create_row owner name path = statement "insert repository" (insert_repository owner name path)

abbrev pub repository_in : Option Repository → Result Repository
repository_in none = err repository_not_found
repository_in (some row) = ok row

-- Get
unfoldable pub get_row : String → String → Exec Repository
get_row owner name =
    statement "get repository"
      λ s. (repository_in (find? (is_repository owner name) s.repositories), s)

comes_first : Repository → Repository → Bool
comes_first a b = ltb b.created_at a.created_at || eqb a.created_at b.created_at && leb b.id a.id

insert_row : Repository → List Repository → List Repository
insert_row r [] = r ∷ []
insert_row r (q ∷ rest) = if comes_first r q then r ∷ q ∷ rest else q ∷ insert_row r rest

sort_rows : List Repository → List Repository
sort_rows [] = []
sort_rows (r ∷ rest) = insert_row r (sort_rows rest)

-- List, in ORDER BY created_at DESC, id DESC
pub list_rows : Exec (List Repository)
unfolding sort_rows insert_row comes_first
list_rows = statement "list repositories" λ s. (ok (sort_rows s.repositories), s)
