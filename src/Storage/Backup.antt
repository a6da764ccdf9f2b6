-- ===== src/Storage/Backup.antt =====
-- Manager of internal/backup/backup.go. `git bundle` is outside of this repository, and the time is
-- given in the form that the key has.
use git_castle.Errors.{failed, ok, err, Result}
use git_castle.Prelude.{some, none, [], ltb, zero, if◌then◌else◌, ◌∷◌, suc, Option, ℕ, String, List}
use git_castle.Storage.Paths.{FilePath}
use git_castle.Prelude.Text.{is_space, trim, split, byte_length, append}
use git_castle.Storage.Files.{Volume}
use git_castle.Storage.Local.{put_object, list_objects, get_object, Store, Object}

-- What `git bundle create` writes for a repository, `none` where it fails, and what
-- `git bundle list-heads` writes for a bundle
pub record Bundler : Type 0 where
  pub create : String → String → Option String
  pub list_heads : String → Option String

unfoldable backup_prefix : String → String → String
backup_prefix owner name = append "backups/" (append owner (append "/" (append name "/")))

abbrev pub archive : String → String → String
archive name stamp = append name (append "-" (append stamp ".bundle"))

unfoldable pub backup_key : String → String → String → String
backup_key owner name stamp =
    append "backups"
      (append "/" (append owner (append "/" (append name (append "/" (archive name stamp))))))

abbrev pub kept : String → Result (Unit {0}) × Volume → Result String × Volume
kept key (ok _, v) = (ok key, v)
kept key (err e, v) = (err (failed "store backup"), v)

-- Backup
unfoldable pub backup : FilePath → Bundler → String → String → String → Store String
unfolding backup_key
backup root bundler stamp owner name v = elim (bundler.create owner name) [
  | none ↦ (err (failed (append "bundle " (append owner (append "/" name)))), v)
  | some bundle ↦
      kept (backup_key owner name stamp) (put_object root (backup_key owner name stamp) bundle v)
]

abbrev pub objects_of : Result (List Object) × Volume → Result (List Object) × Volume
objects_of (ok objects, v) = (ok objects, v)
objects_of (err e, v) = (err (failed "list backups"), v)

-- List
pub list_backups : FilePath → String → String → Store (List Object)
unfolding backup_prefix
list_backups root owner name v = objects_of (list_objects root (backup_prefix owner name) v)

-- line[41:], where the hash and the space are 41 characters of one byte each
unfoldable without_hash : ℕ → String → String
without_hash zero line = line
without_hash (suc n) String.[] = ""
without_hash (suc n) (String.◌∷◌ c line) = without_hash n line

pub heads_of : List String → List String
unfolding without_hash
heads_of [] = []
heads_of (line ∷ lines) =
    let rest = heads_of lines in
    if ltb 41 (byte_length line) then without_hash 41 line ∷ rest else rest

abbrev pub verified : Bundler → Result String × Volume → Result (List String) × Volume
verified bundler (err e, v) = (err e, v)
verified bundler (ok bundle, v) = elim (bundler.list_heads bundle) [
  | none ↦ (err (failed "bundle invalid"), v)
  | some output ↦ (ok (heads_of (split b'\n' (trim is_space output))), v)
]

-- VerifyRestore
unfoldable pub verify_restore : FilePath → Bundler → String → Store (List String)
unfolding heads_of
verify_restore root bundler key v = verified bundler (get_object root key v)
