-- ===== src/Ci/Outcome.antt =====
-- What a run of a job leaves behind.
use git_castle.Prelude.{
  zero, suc, eqb, ◌==◌, if◌then◌else◌, false, find?-sat, ap, find?-update, Option-cases, ◌∙◌,
  revise, inr, inl, ◌≢◌, Bool-cases, refl,
}
use git_castle.Ci.Types.{JobRow}
use git_castle.Ci.Store.{
  finish_job, start_job, mark_finished, mark_running, is_final_status, is_job, as_running,
  as_finished,
}
use git_castle.Ci.Executor.{
  is_zero, run_in, record_run, repo_path, has_repo_id, path_in, RunResult, Runner, run_one,
  status_of,
}
use git_castle.Prelude.{arith, update, find?, none, true, some, [], ◌≡◌, ℕ, String, Option}
use git_castle.Db.{Db}
use git_castle.Errors.{failed, error_text, ok, err, Result, Error}
use git_castle.Prelude.Int.{pos, negsuc, ℤ}
use git_castle.Prelude.Text.{append}
use git_castle.Exec.{statement_up}
use git_castle.Repos.Types.{Repository}

-- The status, output and exit code that are stored, and the error that is returned.
abbrev pub Ending : Type 0
Ending = String × String × ℤ × Result (Unit {0})

-- What a run of the build says: "success" for exit code 0, and any other code or an error is "failed".
abbrev pub verdict_on : ℤ → String
verdict_on (pos zero) = "success"
verdict_on (pos (suc n)) = "failed"
verdict_on (negsuc n) = "failed"

-- The output that is kept when there is an error: what was printed, or else the error.
abbrev pub printed_or : String → Error → String
printed_or printed e = if printed == "" then append "runner error: " (error_text e) else printed

abbrev pub ending_of : RunResult × Option Error → Ending
ending_of (result, none) = (verdict_on result.exit_code, result.output, result.exit_code, ok tt)
ending_of (result, some e) = ("failed", printed_or result.output e, result.exit_code, err e)

abbrev pub ending_in : Runner → String → String → String → Option Repository → Ending
ending_in runner commit branch command none = (
  "failed",
  append "resolve repository: " (error_text (failed "no rows")),
  negsuc 0,
  err (failed "no rows"),
)
ending_in runner commit branch command (some row) =
    ending_of (runner row.path commit branch command)

abbrev pub repository_with : ℕ → Db → Option Repository
repository_with id s = find? (λ row. eqb row.id id) s.repositories

-- The row of a job that began and ended at a time.
abbrev pub ended_job : Ending → ℕ → JobRow → JobRow
ended_job (status, output, exit_code, _) now row = record {
  repository_id = row.repository_id;
  job = record {
    id = row.job.id;
    commit_hash = row.job.commit_hash;
    branch = row.job.branch;
    trigger_kind = row.job.trigger_kind;
    trigger_ref = row.job.trigger_ref;
    status = status;
    output = output;
    exit_code = some exit_code;
    created_at = row.job.created_at;
    started_at = some now;
    finished_at = some now;
  };
}

verdict_on-status : (result : RunResult) → status_of (result, none) ≡ verdict_on result.exit_code
verdict_on-status result = go result.exit_code
  where
    go :
        (code : ℤ)
        → status_of (record { exit_code = code; output = result.output }, none) ≡ verdict_on code
    go (pos zero) = refl
    go (pos (suc n)) = ground arith
    go (negsuc n) = refl

status-final : (run : RunResult × Option Error) → is_final_status (status_of run) ≡ true
status-final (result, some e) = refl
status-final (result, none) = elim (Bool-cases (is_zero result.exit_code)) [
  | inl zero_exit ↦ rw zero_exit refl
  | inr other_exit ↦ rw other_exit refl
]

abbrev pub finished : ℕ → Ending → Db → Db
finished id (status, output, exit_code, _) s = record s {
  jobs = update (is_job id) (as_finished status output exit_code s.clock) s.jobs;
}

record_run-up :
    (id : ℕ) (run : RunResult × Option Error) (s : Db)
    → s.outages ≡ []
    → record_run id run s ≡ ((ending_of run).3, finished id (ending_of run) s)
unfolding mark_finished finish_job
record_run-up id (result, none) s up =
    rw (status-final (result, none), statement_up "mark finished" _ s up, verdict_on-status result)
      refl
record_run-up id (result, some e) s up = rw (statement_up "mark finished" _ s up) refl

run_in-up :
    (runner : Runner) (id : ℕ) (commit branch command : String) (found : Option Repository) (s : Db)
    → s.outages ≡ []
    → let ending = ending_in runner commit branch command found in
      run_in runner id commit branch command (path_in found) s ≡ (ending.3, finished id ending s)
unfolding mark_finished finish_job
run_in-up runner id commit branch command none s up = rw (statement_up "mark finished" _ s up) refl
run_in-up runner id commit branch command (some row) s up =
    record_run-up id (runner row.path commit branch command) s up

module _ (runner : Runner) (repo id : ℕ) (commit branch command : String) (s : Db)
    (up : s.outages ≡ []) where
  abbrev ending : Ending
  ending = ending_in runner commit branch command (repository_with repo s)

  abbrev running : Db
  running = record s { jobs = update (is_job id) (as_running s.clock) s.jobs }

  run_one_up :
      run_one runner repo id commit branch command s ≡ (ending.3, finished id ending running)
  unfolding run_one mark_running start_job repo_path
  run_one_up =
      rw
        (
          statement_up "mark running" (start_job id) s up,
          statement_up "select path" (λ t. (path_in (find? (has_repo_id repo) t.repositories), t))
              running up,
        )
        (run_in-up runner id commit branch command _ running up)

-- The row of a job after a run.
abbrev pub end_row : Ending → ℕ → Option JobRow → Option JobRow
end_row _ now none = none
end_row e now (some row) = some (ended_job e now row)

finished-find :
    (id other : ℕ) (status output : String) (exit_code : ℤ) (s : Db)
    → find? (is_job other) (
        update
          (is_job id)
          (as_finished status output exit_code s.clock)
          (update (is_job id) (as_running s.clock) s.jobs))
      ≡ revise
          (is_job id)
          (as_finished status output exit_code s.clock)
          (revise (is_job id) (as_running s.clock) (find? (is_job other) s.jobs))
finished-find id other status output exit_code s =
    find?-update (is_job other) (is_job id) (as_finished status output exit_code s.clock) _
      (λ x _. refl)
    ∙ ap (revise (is_job id) (as_finished status output exit_code s.clock))
        (find?-update (is_job other) (is_job id) (as_running s.clock) s.jobs (λ x _. refl))

finished-own :
    (id : ℕ) (e : Ending) (s : Db)
    → find?
        (is_job id)
        (finished id e (record s { jobs = update (is_job id) (as_running s.clock) s.jobs })).jobs
      ≡ end_row e s.clock (find? (is_job id) s.jobs)
finished-own id (status, output, exit_code, returned) s =
    finished-find id id status output exit_code s ∙ elim (Option-cases (find? (is_job id) s.jobs)) [
      | inl missing ↦ rw missing refl
      | inr (row, found) ↦
          let same = find?-sat (is_job id) s.jobs row found in rw (found, same, same) refl
    ]

finished-other :
    (id other : ℕ) (e : Ending) (s : Db)
    → other ≢ id
    → find?
        (is_job other)
        (finished id e (record s { jobs = update (is_job id) (as_running s.clock) s.jobs })).jobs
      ≡ find? (is_job other) s.jobs
finished-other id other (status, output, exit_code, returned) s differs =
    finished-find id other status output exit_code s
    ∙ elim (Option-cases (find? (is_job other) s.jobs)) [
      | inl missing ↦ rw missing refl
      | inr (row, found) ↦
          let same = find?-sat (is_job other) s.jobs row found in
          let others : is_job id row ≡ false = ground arith in rw (found, others, others) refl
    ]

-- Without outages, RunOne marks the job running and then finished: "failed" with exit code -1 if
-- the repository is not found, "failed" if the runner returns an error or a non-zero exit code, and
-- "success" otherwise, with the runner's output, or its error if there is no output. It returns the
-- error of the repository or of the runner. No other job changes.
pub run_one_lem :
    (runner : Runner) (repo id : ℕ) (commit branch command : String) (s : Db)
    → s.outages ≡ []
    → let after = run_one runner repo id commit branch command s in
      let ending = ending_in runner commit branch command (repository_with repo s) in
      (after.0 ≡ ending.3)
      × (find? (is_job id) after.1.jobs ≡ end_row ending s.clock (find? (is_job id) s.jobs))
      × ((other : ℕ) → other ≢ id → find? (is_job other) after.1.jobs ≡ find? (is_job other) s.jobs)
run_one_lem runner repo id commit branch command s up =
    let e = ending runner repo id commit branch command s up in
    rw (run_one_up runner repo id commit branch command s up)
      (refl, finished-own id e s, λ other differs. finished-other id other e s differs)
