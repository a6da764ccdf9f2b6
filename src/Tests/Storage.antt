-- ===== src/Tests/Storage.antt =====
-- Witnesses for internal/storage and internal/backup.
use git_castle.Prelude.{
  ◌&&◌, count, Bool, subst, refl, false, true, All, ◌||◌, ◌++◌, ◌≡◌, [], ◌∷◌, some, any, List,
}
use git_castle.Storage.Backup.{verified, verify_restore, backup, backup_key, Bundler}
use git_castle.Storage.Files.{
  is_within, is_directory, is_file, fails_after, blocked, works, Volume, File,
}
use git_castle.Storage.Paths.{clean, object_path, FilePath}
use git_castle.Storage.Calls.{is_temporary}
use git_castle.Prelude.Text.{append}
use git_castle.Storage.Contract.{ObjectOp, answers, get, put, Trace}
use git_castle.Storage.Refinement.{answers-Trace}
use git_castle.Storage.Objects.{object_at}
use git_castle.Storage.Local.{object_of, list_objects, get_object, Object}
use git_castle.Errors.{err, ok}
use git_castle.Storage.Confined.{object_path_under, IsName}
use git_castle.Storage.Listing.{list_objects_lem, NewestFirst}
use git_castle.Storage.Restore.{backup-verify_restore}

abbrev root : FilePath
root = "objects" ∷ "gitcastle" ∷ []

abbrev old : File
old = record {
  path = "a.bundle" ∷ "castle" ∷ "alice" ∷ "backups" ∷ root;
  bytes = "old";
  modified = 3;
}

abbrev volume : Volume
volume = record {
  files = old ∷ [];
  directories =
      ("castle" ∷ "alice" ∷ "backups" ∷ root)
      ∷ ("alice" ∷ "backups" ∷ root)
      ∷ ("backups" ∷ root)
      ∷ root
      ∷ ("gitcastle" ∷ [])
      ∷ []
      ∷ [];
  clock = 5;
  faults = [];
}

object_path_under_example :
    (names : FilePath) × (("passwd" ∷ "etc" ∷ root) ≡ names ++ root) × All IsName names
unfolding object_path git_castle.Prelude.Text.any_char clean git_castle.Prelude.Text.split
    git_castle.Prelude.Text.contains_text any
object_path_under_example =
    object_path_under root ("passwd" ∷ "etc" ∷ root) "../../etc/./passwd" refl

list_objects_lem_example :
    let prefix : FilePath = "backups" ∷ root in
    ((is_file prefix volume || is_directory prefix volume) ≡ true
      → (objects : List Object) × ((list_objects root "backups/" volume).0 ≡ ok objects)
        × NewestFirst objects
        × ((q : Object → Bool)
            → count q objects
              ≡ count (λ f. is_within prefix f.path && q (object_of root f)) volume.files))
    × ((is_file prefix volume || is_directory prefix volume) ≡ false
        → blocked prefix volume ≡ false
        → (list_objects root "backups/" volume).0 ≡ ok [])
unfolding object_path git_castle.Prelude.Text.any_char clean git_castle.Prelude.Text.split
    git_castle.Prelude.Text.contains_text any
list_objects_lem_example = list_objects_lem root ("backups" ∷ root) "backups/" volume refl refl

abbrev operations : List ObjectOp
operations = put "backups/b" "new" ∷ get "backups/b" ∷ []

-- The first call to write a file fails after a part.
abbrev faulty : Volume
faulty = record volume { faults = works ∷ fails_after "ne" ∷ [] }

answers-Trace_example :
    Trace root (λ p. object_at p faulty) operations (answers root operations faulty)
unfolding object_path is_temporary git_castle.Prelude.Text.any_char clean
    git_castle.Prelude.Text.split git_castle.Prelude.Text.contains_text any
    git_castle.Prelude.Text.has_suffix
answers-Trace_example =
    answers-Trace root operations (λ p. object_at p faulty) faulty (plain_b, (plain_b, tt))
      λ q plain. refl
  where
    plain_b : (p : FilePath) → object_path root "backups/b" ≡ ok p → is_temporary p ≡ false
    plain_b p h =
        subst (λ r. is_temporary (elim r as (λ _. FilePath) [ ok s ↦ s | err _ ↦ [] ]) ≡ false) h
          refl

abbrev bundler : Bundler
bundler = record {
  create = λ owner name. some (append owner name);
  list_heads = λ bundle. some "decadedecadedecadedecadedecadedecadedecad refs/heads/main";
}

backup-verify_restore_example :
    let (r, w) = backup root bundler "20260102-030405" "alice" "castle" volume in
    (r ≡ ok (backup_key "alice" "castle" "20260102-030405"))
    × ((get_object root (backup_key "alice" "castle" "20260102-030405") w).0 ≡ ok "alicecastle")
    × ((verify_restore root bundler (backup_key "alice" "castle" "20260102-030405") w).0
        ≡ (verified bundler (ok "alicecastle", w)).0)
unfolding git_castle.Prelude.Text.any_char backup_key git_castle.Prelude.Text.contains_text any
    blocked is_directory is_file git_castle.Storage.Paths.same_path
backup-verify_restore_example =
    backup-verify_restore root bundler "alice" "castle" "20260102-030405" "alicecastle" volume refl
      refl (record { filled = refl; moves = refl; climbs = refl; single = refl })
      (record { filled = refl; moves = refl; climbs = refl; single = refl })
      (record { filled = refl; moves = refl; climbs = refl; single = refl }) refl (refl, refl, refl)
