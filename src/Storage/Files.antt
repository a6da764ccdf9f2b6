-- ===== src/Storage/Files.antt =====
-- The calls of Go's package os that internal/storage makes, on a file system kept as a list of files
-- and a list of directories. Every path on the way to the root exists or can be made.
use git_castle.Prelude.{
  ◌==◌, none, ◌||◌, ◌++◌, true, some, filter, delete, ◌∷◌, ℕ, update, not, if◌then◌else◌, find?,
  false, any, [], Option, String, List, Bool,
}
use git_castle.Storage.Paths.{parent, same_path, FilePath}
use git_castle.Prelude.Order.{less, sort_by}

pub record File : Type 0 where
  pub path : FilePath
  pub bytes : String
  pub modified : ℕ

-- What the next call does: it works, it fails, or, if it writes a file, it fails after a part.
pub data Fault : Type 0 where
  works : Fault
  fails : Fault
  fails_after : String → Fault

pub record Volume : Type 0 where
  pub files : List File
  pub directories : List FilePath
  pub clock : ℕ
  pub faults : List Fault

-- `missing` is an error for which os.IsNotExist holds.
pub data Outcome (A : Type 0) : Type 0 where
  done : A → Outcome A
  missing : Outcome A
  broken : Outcome A

abbrev pub Call : Type 0 → Type 0
Call A = Volume → Outcome A × Volume

unfoldable pub fault : List Fault → Fault
fault [] = works
fault (f ∷ _) = f

unfoldable pub rest_of : List Fault → List Fault
rest_of [] = []
rest_of (_ ∷ fs) = fs

abbrev pub after_call : Volume → Volume
after_call v = record v { faults = rest_of v.faults }

abbrev pub guarded : {A : Type 0} → Fault → Call A → Call A
guarded works q v = q v
guarded _ q v = (broken, v)

unfoldable pub system_call : {A : Type 0} → Call A → Call A
unfolding fault rest_of
system_call q v = guarded (fault v.faults) q (after_call v)

abbrev pub at_path : FilePath → File → Bool
at_path p file = same_path file.path p

unfoldable pub is_file : FilePath → Volume → Bool
is_file p v = any (at_path p) v.files

unfoldable pub is_directory : FilePath → Volume → Bool
is_directory p v = any (same_path p) v.directories

-- A file stands where the path needs a directory.
unfoldable pub blocked : FilePath → Volume → Bool
unfolding is_file
blocked [] v = false
blocked (_ ∷ directory) v = is_file directory v || blocked directory v

abbrev pub not_there : {A : Type 0} → FilePath → Volume → Outcome A
not_there p v = if blocked p v then broken else missing

abbrev pub with_directory : FilePath → List FilePath → List FilePath
with_directory p ds = if any (same_path p) ds then ds else p ∷ ds

unfoldable pub with_directories : FilePath → List FilePath → List FilePath
with_directories [] ds = with_directory [] ds
with_directories (name ∷ p) ds = with_directory (name ∷ p) (with_directories p ds)

abbrev pub make_all : FilePath → Call (Unit {0})
make_all p v =
    if is_file p v || blocked p v
    then (broken, v)
    else (done tt, record v { directories = with_directories p v.directories })

-- os.MkdirAll
unfoldable pub mkdir_all : FilePath → Call (Unit {0})
unfolding with_directories
mkdir_all p = system_call (make_all p)

abbrev pub with_data : String → ℕ → File → File
with_data text now file = record file { bytes = text; modified = now }

unfoldable pub written : FilePath → String → Volume → Volume
written p text v = record v {
  files =
      if any (at_path p) v.files
      then update (at_path p) (with_data text v.clock) v.files
      else v.files ++ record { path = p; bytes = text; modified = v.clock } ∷ [];
}

abbrev pub write_to : FilePath → String → Fault → Call (Unit {0})
write_to p text works v = (done tt, written p text v)
write_to p text fails v = (broken, v)
write_to p text (fails_after part) v = (broken, written p part v)

-- os.WriteFile
unfoldable pub write_file : FilePath → String → Call (Unit {0})
unfolding fault rest_of
write_file p text v =
    if is_directory p v || not (is_directory (parent p) v)
    then (broken, after_call v)
    else write_to p text (fault v.faults) (after_call v)

abbrev pub move_to : FilePath → File → File
move_to p file = record file { path = p }

unfoldable pub moved : FilePath → FilePath → List File → List File
moved from to files = update (at_path from) (move_to to) (delete (at_path to) files)

abbrev pub move : FilePath → FilePath → Call (Unit {0})
move from to v =
    if is_directory to v || not (is_file from v)
    then (broken, v)
    else (done tt, record v { files = moved from to v.files })

-- os.Rename of a file to another name in its directory
unfoldable pub rename : FilePath → FilePath → Call (Unit {0})
rename from to = system_call (move from to)

abbrev pub content : FilePath → Volume → Option File → Outcome String
content p v (some file) = done file.bytes
content p v none = if is_directory p v then broken else not_there p v

-- os.ReadFile
unfoldable pub read_file : FilePath → Call String
read_file p = system_call λ v. (content p v (find? (at_path p) v.files), v)

abbrev pub stands_in : FilePath → FilePath → Bool
stands_in p [] = false
stands_in p (_ ∷ directory) = same_path directory p

abbrev pub is_empty : FilePath → Volume → Bool
is_empty p v = not (any (λ f. stands_in p f.path) v.files || any (stands_in p) v.directories)

abbrev pub unlink : FilePath → Call (Unit {0})
unlink p v =
    if is_file p v
    then (done tt, record v { files = delete (at_path p) v.files })
    else if not (is_directory p v)
    then (not_there p v, v)
    else if is_empty p v
    then (done tt, record v { directories = delete (same_path p) v.directories })
    else (broken, v)

-- os.Remove
unfoldable pub remove_path : FilePath → Call (Unit {0})
remove_path p = system_call (unlink p)

-- The path is `root` or stands below it.
pub is_within : FilePath → FilePath → Bool
unfolding same_path
is_within root [] = same_path root []
is_within root (name ∷ p) = same_path root (name ∷ p) || is_within root p

-- The names below `root`, outermost first
pub relative : FilePath → List String → FilePath → List String
unfolding same_path
relative root names [] = names
relative root names (name ∷ p) =
    let rest = relative root (name ∷ names) p in if same_path root (name ∷ p) then names else rest

pub comes_before : List String → List String → Bool
comes_before _ [] = false
comes_before [] (_ ∷ _) = true
comes_before (a ∷ s) (b ∷ t) = let rest = comes_before s t in if a == b then rest else less a b

abbrev pub walks_before : File → File → Bool
walks_before a b = comes_before (relative [] [] a.path) (relative [] [] b.path)

abbrev pub files_under : FilePath → Volume → List File
files_under root v = sort_by walks_before (filter (λ f. is_within root f.path) v.files)

-- filepath.WalkDir with a function that takes the files
unfoldable pub walk : FilePath → Call (List File)
walk root = system_call λ v. (
  if is_file root v || is_directory root v then done (files_under root v) else not_there root v,
  v,
)
