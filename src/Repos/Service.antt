-- ===== src/Repos/Service.antt =====
-- Service of internal/repos/service.go. The file system and git are outside of this repository:
-- the directories that exist are a list of paths, and `Os` says which calls fail.
use Prim.Native.String.{◌++◌}
use git_castle.Prelude.{
  ◌∷◌, ◌==◌, not, delete, any, none, ◌&&◌, some, if◌then◌else◌, eqb, ◌||◌, leb, false, List, ℕ,
  Option, Bool, String,
}
use git_castle.Exec.{Exec}
use git_castle.Errors.{repository_exists, failed, ok, err, Result, plain, Error}
use git_castle.Repos.Types.{CreateInput, Repository}
use git_castle.Repos.Store.{create_row, get_row, list_rows}
use Prim.Native.Char.{code}
use git_castle.Db.{Db}
use git_castle.Prelude.Text.{rune_count, all_chars}

-- What the calls of the operating system do at a path; false means that the call returns an error.
pub record Os : Type 0 where
  -- os.MkdirAll of a directory, and os.Stat of a path that is there
  pub mkdir_works : String → Bool
  pub stat_works : String → Bool
  -- `git init --bare`, whether it leaves the directory behind when it fails, and `git config`
  pub git_init_works : String → Bool
  pub git_init_leaves : String → Bool
  pub git_config_works : String → Bool
  -- os.RemoveAll of a directory
  pub remove_all_works : String → Bool

abbrev is_alphanumeric : ℕ → Bool
is_alphanumeric c = leb b'a' c && leb c b'z' || leb b'A' c && leb c b'Z' || leb b'0' c && leb c b'9'

abbrev name_char : ℕ → Bool
name_char c = is_alphanumeric c || eqb c b'.' || eqb c b'_' || eqb c b'-'

-- ^[a-zA-Z0-9][a-zA-Z0-9._-]{0,99}$
unfoldable pub valid_name : String → Bool
valid_name String.[] = false
valid_name (String.◌∷◌ c rest) =
    is_alphanumeric (code c) && all_chars name_char rest && leb (rune_count rest) 99

-- validateName
abbrev pub validate_name : String → String → Option Error
validate_name kind value =
    if valid_name value then none else some (plain ("invalid " ++ kind ++ " name"))

-- `if err := …; err != nil { return err }`
abbrev checked : {A S : Type 0} → Option Error → S → Result A × S → Result A × S
checked none s r = r
checked (some e) s r = (err e, s)

-- filepath.Join of a clean root with a valid owner and name, which hold no separator.
pub owner_directory : String → String → String
owner_directory root owner = root ++ "/" ++ owner

unfoldable pub repository_path : String → String → String → String
repository_path root owner name = root ++ "/" ++ owner ++ "/" ++ name ++ ".git"

-- The database and the paths of the repositories on disk.
pub record World : Type 0 where
  pub db : Db
  pub disk : List String

abbrev pub on_disk : String → List String → Bool
on_disk path disk = any (λ p. p == path) disk

-- os.RemoveAll, which leaves the directory where it fails
abbrev pub remove_all : Os → String → List String → List String
remove_all os path disk = if os.remove_all_works path then delete (λ p. p == path) disk else disk

-- InitBare of CommandGitInitializer: its error, if there is one, and the disk
abbrev pub init_bare : Os → String → List String → Option Error × List String
init_bare os path disk =
    if not (os.git_init_works path)
    then (
      some (failed "initialize bare repository"),
      if os.git_init_leaves path then path ∷ disk else disk,
    )
    else if not (os.git_config_works path)
    then (some (failed "enable http.receivepack"), path ∷ disk)
    else (none, path ∷ disk)

-- The row is inserted after `git init`; if that fails, the new directory is removed again, and an
-- error of that is dropped.
abbrev pub recorded : Os → String → List String → Result Repository × Db → Result Repository × World
recorded os path disk (ok repository, db) = (ok repository, record { db = db; disk = disk })
recorded os path disk (err e, db) = (err e, record { db = db; disk = remove_all os path disk })

-- What follows InitBare: its error is returned as it is, and the disk is left alone.
abbrev pub initialized :
    Os → String → String → String → Db → Option Error × List String → Result Repository × World
initialized os owner name path db (some e, disk) = (err e, record { db = db; disk = disk })
initialized os owner name path db (none, disk) =
    recorded os path disk (create_row owner name path db)

unfoldable pub make : Os → String → String → String → World → Result Repository × World
make os root owner name w =
    let path = repository_path root owner name in
    if not (os.mkdir_works (owner_directory root owner))
    then (err (failed "create owner directory"), w)
    else if not (os.stat_works path)
    then (err (failed "check repository path"), w)
    else if on_disk path w.disk
    then (err repository_exists, w)
    else initialized os owner name path w.db (init_bare os path w.disk)

-- Create
unfoldable pub create : Os → String → CreateInput → World → Result Repository × World
create os root input w =
    checked (validate_name "owner" input.owner) w
      (checked (validate_name "repository" input.name) w (make os root input.owner input.name w))

-- Get
unfoldable pub get : String → String → Exec Repository
get owner name s =
    checked (validate_name "owner" owner) s
      (checked (validate_name "repository" name) s (get_row owner name s))

-- List
abbrev pub list : Exec (List Repository)
list = list_rows
