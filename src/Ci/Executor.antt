-- ===== src/Ci/Executor.antt =====
-- Executor of internal/ci/executor.go.
use git_castle.Ci.Store.{mark_running, mark_finished}
use git_castle.Prelude.{
  find?, false, ◌==◌, not, none, if◌then◌else◌, eqb, some, Bool, ℕ, String, Option,
}
use git_castle.Prelude.Int.{negsuc, pos, ℤ}
use git_castle.Errors.{failed, ok, error_text, err, Result, Error}
use git_castle.Exec.{statement, attempt, ◌>>=◌, raise, ◌>>◌, pure, Exec}
use git_castle.Prelude.Text.{append}
use git_castle.Repos.Types.{Repository}

-- Result of internal/ci/runner.go
pub record RunResult : Type 0 where
  pub exit_code : ℤ
  pub output : String

-- Runner.Run, which calls git and docker: its result, and its error if there is one
abbrev pub Runner : Type 0
Runner = (bare_path commit branch command : String) → RunResult × Option Error

abbrev pub is_zero : ℤ → Bool
is_zero (pos n) = eqb n 0
is_zero (negsuc n) = false

abbrev pub status_of : RunResult × Option Error → String
status_of (result, some e) = "failed"
status_of (result, none) = if not (is_zero result.exit_code) then "failed" else "success"

abbrev pub output_of : RunResult × Option Error → String
output_of (result, none) = result.output
output_of (result, some e) =
    if result.output == "" then append "runner error: " (error_text e) else result.output

abbrev pub returned_error : Option Error → Exec (Unit {0})
returned_error none = pure tt
returned_error (some e) = raise e

abbrev pub record_run : ℕ → RunResult × Option Error → Exec (Unit {0})
record_run id run = do
  mark_finished id (status_of run) (output_of run) run.0.exit_code
  returned_error run.1

-- A repository that is not found ends the job as failed; an error of that update is dropped.
abbrev pub run_in : Runner → ℕ → String → String → String → Result String → Exec (Unit {0})
run_in runner id commit branch command (err e) = do
  _ ← attempt (mark_finished id "failed" (append "resolve repository: " (error_text e)) (negsuc 0))
  raise e
run_in runner id commit branch command (ok bare_path) =
    record_run id (runner bare_path commit branch command)

abbrev pub has_repo_id : ℕ → Repository → Bool
has_repo_id id row = eqb row.id id

abbrev pub path_in : Option Repository → Result String
path_in none = err (failed "no rows")
path_in (some row) = ok row.path

-- RepoPath of main.go
unfoldable pub repo_path : ℕ → Exec String
repo_path repo = statement "select path" λ s. (path_in (find? (has_repo_id repo) s.repositories), s)

-- RunOne
unfoldable pub run_one : Runner → ℕ → ℕ → String → String → String → Exec (Unit {0})
run_one runner repo id commit branch command = do
  mark_running id
  bare_path ← attempt (repo_path repo)
  run_in runner id commit branch command bare_path
