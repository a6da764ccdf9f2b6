-- ===== src/Database/Migrate.antt =====
-- Migrate of internal/database/database.go. The SQL of a migration is outside of the model: what it
-- makes of a schema is a parameter. The embedded files can always be read; a transaction whose
-- commit reports an error is taken to be rolled back.
use git_castle.Db.{down, later}
use git_castle.Errors.{failed, err, ok, Result}
use git_castle.Prelude.{
  none, filter, some, ◌==◌, ◌&&◌, [], ◌∷◌, true, not, any, if◌then◌else◌, Option, List, String,
  Bool,
}
use git_castle.Prelude.Order.{less, sort_by}
use git_castle.Prelude.Text.{has_suffix, append}
use mathlib.Core.List.{map}

-- An entry of the embedded directory
pub record MigrationFile : Type 0 where
  pub name : String
  pub is_directory : Bool

-- The database: the table schema_migrations, the rest of the schema, and for each statement to come
-- whether it fails
pub record Schema (A : Type 0) : Type 0 where
  pub has_table : Bool
  pub applied : List String
  pub rest : A
  pub outages : List Bool

abbrev pub Step : Type 0 → Type 0
Step A = Schema A → Result (Unit {0}) × Schema A

abbrev pub next_call : {A : Type 0} → Schema A → Schema A
next_call s = record s { outages = later s.outages }

-- One statement, or the beginning or the end of a transaction
unfoldable pub run_or_fail : {A : Type 0} → String → Step A → Step A
run_or_fail context q s =
    if down s.outages then (err (failed context), next_call s) else q (next_call s)

-- A failing transaction leaves the tables as they were before it.
abbrev pub rolled_back :
    {A : Type 0} → Schema A → Result (Unit {0}) × Schema A → Result (Unit {0}) × Schema A
rolled_back s (ok u, t) = (ok u, t)
rolled_back s (err e, t) = (err e, record s { outages = t.outages })

-- The migration's own SQL; none is an error of the database.
abbrev pub executed : {A : Type 0} → String → Option A → Step A → Step A
executed context none q s = (err (failed context), s)
executed context (some rest) q s = q (record s { rest = rest })

abbrev pub with_version : {A : Type 0} → String → Schema A → Schema A
with_version version s = record s { applied = version ∷ s.applied }

module _ {A : Type 0} (sql : String → A → Option A) where
  -- The transaction of one migration
  unfoldable pub apply_version : String → Step A
  unfolding run_or_fail
  apply_version version s = rolled_back s (
      run_or_fail (append "begin migration " version)
        (run_or_fail (append "apply migration " version) λ t.
          executed (append "apply migration " version) (sql version t.rest)
            (run_or_fail (append "record migration " version) λ u.
              run_or_fail (append "commit migration " version) (λ w. (ok tt, w))
                (with_version version u))
            t)
        s)

  unfoldable pub is_applied : String → Schema A → Bool
  is_applied version s = any (λ v. v == version) s.applied

  abbrev pub and_then : Result (Unit {0}) × Schema A → Step A → Result (Unit {0}) × Schema A
  and_then (ok u, s) q = q s
  and_then (err e, s) q = (err e, s)

  -- The body of the loop
  unfoldable pub migrate_version : String → Step A
  unfolding run_or_fail
  migrate_version version =
      run_or_fail (append "check migration " version)
        λ s. if is_applied version s then (ok tt, s) else apply_version version s

  unfoldable pub migrate_all : List String → Step A
  migrate_all [] s = (ok tt, s)
  migrate_all (version ∷ versions) s = and_then (migrate_version version s) (migrate_all versions)

  abbrev pub is_migration : MigrationFile → Bool
  is_migration file = not file.is_directory && has_suffix file.name ".sql"

  -- The names of the migrations, sorted
  unfoldable pub versions_of : List MigrationFile → List String
  versions_of files = sort_by less (map (λ file. file.name) (filter is_migration files))

  -- Migrate
  unfoldable pub migrate : List MigrationFile → Step A
  unfolding run_or_fail
  migrate files s =
      and_then
        (run_or_fail "create migrations table" (λ t. (ok tt, record t { has_table = true })) s)
        (migrate_all (versions_of files))
