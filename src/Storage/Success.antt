-- ===== src/Storage/Success.antt =====
-- When Put works, and what Get then returns.
use git_castle.Prelude.{
  find?, ◌||◌, Option, [], find?-none-any, sym, refl, Bool, false≢true, ◌≢◌, inr, none, inl, ◌∙◌,
  some, arith, ap, Bool-cases, ◌∷◌, true, false, ◌≡◌, ◌<◌, String, length, List, any,
}
use git_castle.Storage.Files.{
  content, read_file, File, rename, moved, written, done, rest_of, blocked, system_call, fault,
  write_file, mkdir_all, is_directory, at_path, Volume, with_directory, is_file, with_directories,
}
use git_castle.Storage.Objects.{
  object_at-written, find-moved, bytes_of, same_path_refl, path_eq, object_at,
}
use git_castle.Storage.Paths.{object_path, temporary, same_path, FilePath}
use git_castle.Storage.Calls.{apart_from, apart, is_temporary}
use git_castle.Storage.Local.{answer, get_object, put_object}
use git_castle.Errors.{Result, ok}

same_path-length : (p q : FilePath) → same_path p q ≡ true → length p ≡ length q
same_path-length p q h = ap length (path_eq p q h)

shorter_apart : (p q : FilePath) → length p < length q → same_path q p ≡ false
shorter_apart p q le = elim (Bool-cases (same_path q p)) [
  | inl h ↦ let e = same_path-length q p h in absurd (omega arith)
  | inr h ↦ h
]

any-with_directory :
    (q p : FilePath) (ds : List FilePath)
    → same_path q p ≡ false
    → any (same_path q) (with_directory p ds) ≡ any (same_path q) ds
unfolding any
any-with_directory q p ds h = ground (arith, h)

-- Making a directory and those above it makes none that is longer.
any-with_directories :
    (q p : FilePath) (ds : List FilePath)
    → length p < length q
    → any (same_path q) (with_directories p ds) ≡ any (same_path q) ds
unfolding with_directories
any-with_directories q [] ds le = any-with_directory q [] ds (shorter_apart [] q le)
any-with_directories q (name ∷ p) ds le =
    any-with_directory q (name ∷ p) (with_directories p ds) (shorter_apart (name ∷ p) q le)
    ∙ any-with_directories q p ds (omega arith)

any-with_directory_here :
    (p : FilePath) (ds : List FilePath) → any (same_path p) (with_directory p ds) ≡ true
unfolding any
any-with_directory_here p ds = elim (Bool-cases (any (same_path p) ds)) [
  | inl h ↦ rw h h
  | inr h ↦ rw h (rw (same_path_refl p) refl)
]

any-with_directories_here :
    (p : FilePath) (ds : List FilePath) → any (same_path p) (with_directories p ds) ≡ true
unfolding with_directories
any-with_directories_here [] ds = any-with_directory_here [] ds
any-with_directories_here (name ∷ p) ds = any-with_directory_here (name ∷ p) (with_directories p ds)

none≢some : {A : Type 0} {x : A} → Option.none ≢ some x
none≢some e = false≢true (ap (λ r. elim r as (λ _. Bool) [ none ↦ false | some _ ↦ true ]) e)

is_file_of_object :
    (p : FilePath) (text : String) (v : Volume) → object_at p v ≡ some text → is_file p v ≡ true
unfolding object_at is_file
is_file_of_object p text v h = elim (Bool-cases (any (at_path p) v.files)) [
  | inl a ↦ a
  | inr a ↦ absurd (none≢some (sym (ap bytes_of (find?-none-any (at_path p) v.files a)) ∙ h))
]

-- A volume on which no call fails
abbrev calm : Volume → Volume
calm v = record v { faults = [] }

blocked-calm : (p : FilePath) (v : Volume) → blocked p (calm v) ≡ blocked p v
unfolding blocked is_file
blocked-calm [] v = refl
blocked-calm (name ∷ p) v = ap (λ b. is_file p v || b) (blocked-calm p v)

module _ (name : String) (directory : FilePath) (text : String) (v : Volume) where
  abbrev p : FilePath
  p = name ∷ directory

  abbrev made : Volume
  made = record v { directories = with_directories directory v.directories; faults = [] }

  make_works : blocked p v ≡ false → mkdir_all directory (calm v) ≡ (done tt, made)
  unfolding mkdir_all system_call fault rest_of blocked
  make_works h =
      let clear : (is_file directory (calm v) || blocked directory (calm v)) ≡ false =
        blocked-calm p v ∙ h in
      rw clear refl

  no_directory_made :
      (q : FilePath)
      → length directory < length q
      → is_directory q v ≡ false
      → is_directory q made ≡ false
  unfolding is_directory
  no_directory_made q le h = any-with_directories q directory v.directories le ∙ h

  write_works :
      is_directory (temporary p) v ≡ false
      → write_file (temporary p) text made ≡ (done tt, written (temporary p) text made)
  unfolding write_file fault rest_of is_directory written
  write_works h =
      rw (no_directory_made (temporary p) (omega arith) h)
        (rw (any-with_directories_here directory v.directories) refl)

  abbrev placed : Volume
  placed = record made { files = moved (temporary p) p (written (temporary p) text made).files }

  rename_works :
      is_directory p v ≡ false
      → rename (temporary p) p (written (temporary p) text made) ≡ (done tt, placed)
  unfolding rename system_call fault rest_of written is_directory is_file
  rename_works h = rw (no_directory_made p (omega arith) h) (
      rw
        (is_file_of_object (temporary p) text (written (temporary p) text made)
          (object_at-written (temporary p) text made))
        refl)

  placed_object : is_temporary p ≡ false → object_at p placed ≡ some text
  unfolding object_at
  placed_object plain =
      find-moved (temporary p) p (written (temporary p) text made).files (apart p p plain)
        (apart_from p p plain)
      ∙ object_at-written (temporary p) text made

  read_back :
      (found : Option File)
      → bytes_of found ≡ some text
      → (answer "read object" (content p placed found, placed)).0 ≡ ok text
  read_back none h = absurd (none≢some h)
  read_back (some file) h =
      ap (λ r. elim r as (λ _. Result String) [ none ↦ ok "" | some t ↦ ok t ]) h

  put_and_get :
      (root : FilePath) (key : String)
      → object_path root key ≡ ok p
      → is_temporary p ≡ false
      → blocked p v ≡ false
      → is_directory p v ≡ false
      → is_directory (temporary p) v ≡ false
      → (put_object root key text (calm v) ≡ (ok tt, placed))
        × ((get_object root key placed).0 ≡ ok text)
  unfolding put_object get_object read_file system_call fault rest_of object_at
  put_and_get root key at plain clear new free = (
    rw (at, make_works clear, write_works free, rename_works new) refl,
    rw at (read_back (find? (at_path p) placed.files) (placed_object plain)),
  )

-- When no call of the operating system fails, no file stands where the key's path needs a directory,
-- and neither the key's path nor that of its temporary file is a directory, Put works, and Get of
-- the same key then returns what was put. The file is not named with ".tmp" at its end.
pub put_object-get_object :
    (root : FilePath) (key text name : String) (directory : FilePath) (v : Volume)
    → v.faults ≡ []
    → object_path root key ≡ ok (name ∷ directory)
    → is_temporary (name ∷ directory) ≡ false
    → blocked (name ∷ directory) v ≡ false
    → is_directory (name ∷ directory) v ≡ false
    → is_directory (temporary (name ∷ directory)) v ≡ false
    → let (r, w) = put_object root key text v in (r ≡ ok tt) × ((get_object root key w).0 ≡ ok text)
put_object-get_object root key text name directory v up at plain clear new free =
    let (works, back) = put_and_get name directory text v root key at plain clear new free in
    let e : put_object root key text v ≡ (ok tt, placed name directory text v) =
      ap (λ f. put_object root key text (record v { faults = f })) up ∙ works in
    (ap (λ r. r.0) e, ap (λ r. (get_object root key r.1).0) e ∙ back)
