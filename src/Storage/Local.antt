-- ===== src/Storage/Local.antt =====
-- LocalStore of internal/storage/storage.go.
use git_castle.Errors.{object_not_found, failed, ok, err, Result}
use git_castle.Prelude.{ltb, if◌then◌else◌, ◌∷◌, ℕ, [], String, List}
use git_castle.Storage.Files.{
  remove_path, rename, broken, missing, write_file, walk, relative, read_file, done, mkdir_all,
  Outcome, File, Call, Volume,
}
use git_castle.Storage.Paths.{temporary, parent, object_path, FilePath}
use git_castle.Prelude.Text.{byte_length, join_with}
use mathlib.Core.List.{map}

pub record Object : Type 0 where
  pub key : String
  pub size : ℕ
  pub modified : ℕ

abbrev pub Store : Type 0 → Type 0
Store A = Volume → Result A × Volume

abbrev pub on_path : {A : Type 0} → Result FilePath → (FilePath → Store A) → Store A
on_path (err e) f v = (err e, v)
on_path (ok p) f v = f p v

abbrev pub or_fail : {A B : Type 0} → String → Outcome A × Volume → (A → Store B) → Store B
or_fail context (done a, v) f w = f a v
or_fail context (_, v) f w = (err (failed context), v)

abbrev pub then_do : {A B : Type 0} → String → Call A → (A → Store B) → Store B
then_do context call f v = or_fail context (call v) f v

abbrev pub put_at : FilePath → String → Store (Unit {0})
put_at p bytes = then_do "create object dir" (mkdir_all (parent p)) λ _.
    then_do "write object" (write_file (temporary p) bytes)
      λ _. then_do "commit object" (rename (temporary p) p) λ _ v. (ok tt, v)

-- Put
unfoldable pub put_object : FilePath → String → String → Store (Unit {0})
put_object root key bytes = on_path (object_path root key) λ p. put_at p bytes

abbrev pub answer : {A : Type 0} → String → Outcome A × Volume → Result A × Volume
answer context (done a, v) = (ok a, v)
answer context (missing, v) = (err object_not_found, v)
answer context (broken, v) = (err (failed context), v)

-- Get
unfoldable pub get_object : FilePath → String → Store String
get_object root key = on_path (object_path root key) λ p v. answer "read object" (read_file p v)

-- Delete
unfoldable pub delete_object : FilePath → String → Store (Unit {0})
delete_object root key =
    on_path (object_path root key) λ p v. answer "delete object" (remove_path p v)

-- filepath.Rel
abbrev pub key_of : List String → String
key_of [] = "."
key_of (name ∷ names) = join_with "/" (name ∷ names)

abbrev pub object_of : FilePath → File → Object
object_of root file = record {
  key = key_of (relative root [] file.path);
  size = byte_length file.bytes;
  modified = file.modified;
}

-- The inner loop: objects[j] goes down past the objects that it is newer than. The objects before
-- it stand in the list from the last one to the first.
unfoldable pub sift : Object → List Object → List Object
sift object [] = object ∷ []
sift object (previous ∷ rest) =
    let lower = sift object rest in
    if ltb previous.modified object.modified then previous ∷ lower else object ∷ previous ∷ rest

unfoldable pub sift_all : List Object → List Object → List Object
unfolding sift
sift_all sorted [] = sorted
sift_all sorted (object ∷ rest) = sift_all (sift object sorted) rest

unfoldable pub turned : List Object → List Object → List Object
turned back [] = back
turned back (object ∷ rest) = turned (object ∷ back) rest

unfoldable pub newest_objects : List Object → List Object
unfolding sift_all turned
newest_objects objects = turned [] (sift_all [] objects)

abbrev pub listed : FilePath → Outcome (List File) × Volume → Result (List Object) × Volume
listed root (done files, v) = (ok (newest_objects (map (object_of root) files)), v)
listed root (missing, v) = (ok [], v)
listed root (broken, v) = (err (failed "list objects"), v)

-- List
unfoldable pub list_objects : FilePath → String → Store (List Object)
list_objects root prefix = on_path (object_path root prefix) λ p v. listed root (walk p v)
