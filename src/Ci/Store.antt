-- ===== src/Ci/Store.antt =====
-- Store of internal/ci/store.go.
use git_castle.Ci.Types.{Job, JobRow}
use git_castle.Prelude.{
  ◌||◌, ◌++◌, zero, update, not, ltb, filter, ◌==◌, suc, if◌then◌else◌, eqb, ◌∷◌, some, none, [],
  Bool, ℕ, String, List,
}
use git_castle.Prelude.Int.{negsuc, pos, ℤ}
use git_castle.Exec.{raise, statement, Exec}
use git_castle.Errors.{plain, ok}
use mathlib.Core.List.{map}
use git_castle.Prelude.Text.{append}

abbrev pub queued : ℕ → ℕ → String → String → String → String → Job
queued id now commit branch kind ref = record {
  id = id;
  commit_hash = commit;
  branch = branch;
  trigger_kind = kind;
  trigger_ref = ref;
  status = "queued";
  output = "";
  exit_code = none;
  created_at = now;
  started_at = none;
  finished_at = none;
}

unfoldable pub insert_job : ℕ → String → String → String → String → Exec Job
insert_job repo commit branch kind ref s =
    let job = queued s.job_seq s.clock commit branch kind ref in
    let row : JobRow = record { repository_id = repo; job = job } in
    (ok job, record s { jobs = s.jobs ++ row ∷ []; job_seq = suc s.job_seq })

-- CreateJob
unfoldable pub create_job : ℕ → String → String → String → String → Exec Job
create_job repo commit branch kind ref =
    statement "insert build job" (insert_job repo commit branch kind ref)

-- ORDER BY created_at DESC
unfoldable insert_newest : Job → List Job → List Job
insert_newest job [] = job ∷ []
insert_newest job (j ∷ rest) =
    if ltb job.created_at j.created_at then j ∷ insert_newest job rest else job ∷ j ∷ rest

unfoldable newest_first : List Job → List Job
newest_first [] = []
newest_first (job ∷ rest) = insert_newest job (newest_first rest)

unfoldable first_of : ℕ → List Job → List Job
first_of zero jobs = []
first_of (suc n) [] = []
first_of (suc n) (job ∷ jobs) = job ∷ first_of n jobs

abbrev limit_of : ℤ → ℕ
limit_of (pos n) = if eqb n 0 || ltb 100 n then 20 else n
limit_of (negsuc n) = 20

-- ListJobs
abbrev pub list_jobs : ℕ → ℤ → Exec (List Job)
unfolding newest_first insert_newest first_of
list_jobs repo limit = statement "list build jobs" λ s.
    let rows = filter (λ row. eqb row.repository_id repo) s.jobs in
    (ok (first_of (limit_of limit) (newest_first (map (λ row. row.job) rows))), s)

abbrev pub is_job : ℕ → JobRow → Bool
is_job id row = eqb row.job.id id

abbrev pub as_running : ℕ → JobRow → JobRow
as_running now row = record row {
  job = record (row.job) { status = "running"; started_at = some now };
}

unfoldable pub start_job : ℕ → Exec (Unit {0})
start_job id s = (ok tt, record s { jobs = update (is_job id) (as_running s.clock) s.jobs })

-- MarkRunning
unfoldable pub mark_running : ℕ → Exec (Unit {0})
mark_running id = statement "mark running" (start_job id)

abbrev pub as_finished : String → String → ℤ → ℕ → JobRow → JobRow
as_finished status output exit_code now row = record row {
  job = record (row.job) {
    status = status;
    output = output;
    exit_code = some exit_code;
    finished_at = some now;
  };
}

unfoldable pub finish_job : ℕ → String → String → ℤ → Exec (Unit {0})
finish_job id status output exit_code s = (
  ok tt,
  record s { jobs = update (is_job id) (as_finished status output exit_code s.clock) s.jobs },
)

abbrev pub is_final_status : String → Bool
is_final_status status = status == "success" || status == "failed"

-- MarkFinished
unfoldable pub mark_finished : ℕ → String → String → ℤ → Exec (Unit {0})
mark_finished id status output exit_code =
    if not (is_final_status status)
    then raise (plain (append "invalid final status " status))
    else statement "mark finished" (finish_job id status output exit_code)
