-- ===== src/Tests/Database.antt =====
-- Witnesses for internal/database.
use git_castle.Database.Migrate.{
  versions_of, is_applied, run_or_fail, apply_version, migrate_version, migrate_all, MigrationFile,
  migrate, Schema,
}
use git_castle.Prelude.{
  refl, some, none, All, ◌==◌, true, ◌≡◌, ◌∷◌, if◌then◌else◌, [], false, Option, String, List,
}
use git_castle.Database.Rerun.{migrate-Reruns, calm}
use git_castle.Errors.{failed, err, ok}

-- The schema is the list of the versions that ran; 003 cannot run.
abbrev sql : String → List String → Option (List String)
sql version ran = if version == "003.sql" then none else some (version ∷ ran)

abbrev files : List MigrationFile
files =
    record { name = "002.sql"; is_directory = false }
    ∷ record { name = "README"; is_directory = false }
    ∷ record { name = "001.sql"; is_directory = false }
    ∷ []

-- The commit of the second migration fails.
abbrev start : Schema (List String)
start = record {
  has_table = false;
  applied = [];
  rest = [];
  outages =
      false ∷ false ∷ false ∷ false ∷ false ∷ false ∷ false ∷ false ∷ false ∷ false ∷ true ∷ [];
}

second_fails : (migrate sql files start).0 ≡ err (failed "commit migration 002.sql")
unfolding migrate migrate_all migrate_version apply_version run_or_fail versions_of
    git_castle.Db.down git_castle.Db.later git_castle.Prelude.Text.has_suffix
    git_castle.Prelude.Text.same_text git_castle.Prelude.filter git_castle.Prelude.any
    git_castle.Prelude.Order.sort_by git_castle.Prelude.Order.less is_applied
second_fails = refl

migrate-Reruns_example :
    (migrate sql files (calm (migrate sql files start).1) ≡ migrate sql files (calm start))
    × ((migrate sql files start).0 ≡ ok tt
        → All (λ v. is_applied sql v (migrate sql files start).1 ≡ true) (versions_of sql files))
migrate-Reruns_example = migrate-Reruns sql files start
