-- ===== src/Tests/Ci.antt =====
-- Witnesses for internal/ci.
use git_castle.Prelude.{◌≢◌, ℕ, ◌≡◌, ◌∷◌, find?, none, [], refl}
use git_castle.Tests.Samples.{server}
use git_castle.Ci.Executor.{run_one, Runner}
use git_castle.Db.{Db}
use git_castle.Ci.Outcome.{repository_with, run_one_lem, end_row, ending_in}
use git_castle.Prelude.Int.{pos}
use git_castle.Ci.Store.{is_job, queued}

abbrev runner : Runner
runner path commit branch command = (record { exit_code = pos 2; output = "boom" }, none)

abbrev tables : Db
tables = record (server "open" [] []) {
  jobs =
      record { repository_id = 1; job = queued 1 8 "c0ffee" "main" "push" "" }
      ∷ record { repository_id = 1; job = queued 2 9 "decade" "main" "push" "" }
      ∷ [];
  job_seq = 3;
}

run_one_lem_example :
    let after = run_one runner 1 2 "decade" "main" "make test" tables in
    let ending = ending_in runner "decade" "main" "make test" (repository_with 1 tables) in
    (after.0 ≡ ending.3)
    × (find? (is_job 2) after.1.jobs ≡ end_row ending tables.clock (find? (is_job 2) tables.jobs))
    × ((other : ℕ)
        → other ≢ 2
        → find? (is_job other) after.1.jobs ≡ find? (is_job other) tables.jobs)
run_one_lem_example = run_one_lem runner 1 2 "decade" "main" "make test" tables refl
