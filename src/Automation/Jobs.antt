-- ===== src/Automation/Jobs.antt =====
-- The job that a push leads to, from the event to the end of its run.
use git_castle.Prelude.{
  inr, inl, Bool-cases, eqb_iff, arith, ◌∙◌, find?-none-any, find?-append_none, any, suc, ◌++◌,
  false, ◌==◌, none, some, find?, ◌∷◌, true, Option, List, [], ◌≡◌, String, ℕ, refl,
}
use git_castle.Webhooks.Types.{Hook}
use git_castle.Automation.Fanout.{
  notify, is_deletion, read_build_command, Config, PushEvent, Launch, queue_job, push_received,
}
use git_castle.Ci.Outcome.{ended_job, ending_of, run_one_lem}
use git_castle.Ci.Store.{is_job, insert_job, create_job, queued}
use git_castle.Ci.Executor.{run_one, Runner, path_in, has_repo_id, repo_path}
use git_castle.Db.{Db}
use git_castle.Webhooks.Dispatcher.{retries_of, deliver, Network, dispatch, deliver_all}
use git_castle.Webhooks.Store.{matching, insert_delivery, record_delivery, list_hooks}
use git_castle.Ci.Types.{JobRow}
use git_castle.Prelude.Int.{ℤ}
use git_castle.Repos.Types.{Repository}
use git_castle.Exec.{statement_up}
use git_castle.Errors.{ok}

-- What the webhooks leave alone.
abbrev Kept : Db → Db → Type 0
Kept s t =
    (t.outages ≡ [])
    × (t.repositories ≡ s.repositories)
    × (t.jobs ≡ s.jobs)
    × (t.job_seq ≡ s.job_seq)
    × (t.clock ≡ s.clock)

deliver_all-Kept :
    (net : Network) (retries : ℕ) (event payload : String) (hooks : List Hook) (s t : Db)
    → Kept s t
    → Kept s (deliver_all net retries event payload hooks t).1
unfolding deliver_all record_delivery insert_delivery
deliver_all-Kept net retries event payload [] s t kept = kept
deliver_all-Kept net retries event payload (hook ∷ hooks) s t kept =
    let status = (deliver net hook payload retries 0 0).0 in
    deliver_all-Kept net retries event payload hooks s
      (record_delivery hook.id event payload status t).1
      (rw (statement_up "record delivery" (insert_delivery hook.id event payload status) t kept.0)
        kept)

dispatch-Kept :
    (net : Network) (max_retries : ℤ) (repo : ℕ) (event : String) (payload : Option String) (s : Db)
    → s.outages ≡ []
    → Kept s (dispatch net max_retries repo event payload s).1
unfolding dispatch list_hooks
dispatch-Kept net max_retries repo event none s up =
    rw (statement_up "list webhooks" (λ t. (ok (matching repo event t), t)) s up)
      (up, refl, refl, refl, refl)
dispatch-Kept net max_retries repo event (some payload) s up =
    rw (statement_up "list webhooks" (λ t. (ok (matching repo event t), t)) s up) (
      deliver_all-Kept net (retries_of max_retries) event payload (matching repo event s) s s
        (up, refl, refl, refl, refl))

-- The launch and the row of a new job.
abbrev pub launch_of : ℕ → ℕ → String → String → String → Launch
launch_of repo id commit branch command = record {
  repository_id = repo;
  job_id = id;
  commit_hash = commit;
  branch = branch;
  command = command;
}

abbrev pub job_row : ℕ → ℕ → ℕ → String → String → String → String → JobRow
job_row repo id now commit branch kind ref = record {
  repository_id = repo;
  job = queued id now commit branch kind ref;
}

queue_job_lem :
    (c : Config) (repo : ℕ) (commit branch kind ref : String) (s : Db) (row : Repository)
    → s.outages ≡ []
    → c.has_ci ≡ true
    → find? (has_repo_id repo) s.repositories ≡ some row
    → let command = read_build_command c row.path commit in
      (command == "") ≡ false
      → queue_job c repo commit branch kind ref s ≡ (
        launch_of repo s.job_seq commit branch command ∷ [],
        record s {
          jobs = s.jobs ++ job_row repo s.job_seq s.clock commit branch kind ref ∷ [];
          job_seq = suc s.job_seq;
        },
      )
unfolding queue_job repo_path create_job insert_job read_build_command
queue_job_lem c repo commit branch kind ref s row up on found set =
    rw
      (
        on,
        statement_up "select path" (λ t. (path_in (find? (has_repo_id repo) t.repositories), t)) s
            up,
        found,
        set,
        statement_up "insert build job" (insert_job repo commit branch kind ref) s up,
      )
      refl

-- The row of the new job after its run, in a database that was ready for it.
queued-run :
    (runner : Runner) (c : Config) (repo : ℕ) (commit branch kind ref : String) (s : Db)
    (row : Repository)
    → s.outages ≡ []
    → c.has_ci ≡ true
    → find? (has_repo_id repo) s.repositories ≡ some row
    → (read_build_command c row.path commit == "") ≡ false
    → any (is_job s.job_seq) s.jobs ≡ false
    → let command = read_build_command c row.path commit in
      let after = queue_job c repo commit branch kind ref s in
      (after.0 ≡ launch_of repo s.job_seq commit branch command ∷ [])
      × (find?
            (is_job s.job_seq)
            (run_one runner repo s.job_seq commit branch command after.1).1.jobs
          ≡ some (
              ended_job
                (ending_of (runner row.path commit branch command))
                s.clock
                (job_row repo s.job_seq s.clock commit branch kind ref)))
unfolding find?
queued-run runner c repo commit branch kind ref s row up on found set fresh =
    let command = read_build_command c row.path commit in
    let new = job_row repo s.job_seq s.clock commit branch kind ref in
    let t = record s { jobs = s.jobs ++ new ∷ []; job_seq = suc s.job_seq } in
    let (_, own, _) = run_one_lem runner repo s.job_seq commit branch command t up in
    let stored : find? (is_job s.job_seq) t.jobs ≡ some new =
      find?-append_none (is_job s.job_seq) s.jobs _ (find?-none-any (is_job s.job_seq) s.jobs fresh)
      ∙ ground (arith, eqb_iff s.job_seq s.job_seq) in
    rw (queue_job_lem c repo commit branch kind ref s row up on found set)
      (refl, rw (stored, found) at own)

notify-Kept :
    (c : Config) (repo : ℕ) (event owner name actor : String) (fields : List String) (s : Db)
    → s.outages ≡ []
    → Kept s (notify c repo event owner name actor fields s).1
notify-Kept c repo event owner name actor fields s up = elim (Bool-cases c.has_dispatcher) [
  | inl on ↦ rw on (dispatch-Kept c.network c.max_retries repo event _ s up)
  | inr off ↦ rw off (up, refl, refl, refl, refl)
]

-- Without outages, a push of a new commit to a stored repository whose build file has a command
-- starts exactly one job, for that commit, branch and command, whatever webhooks there are; when it
-- has run, its row holds the runner's output, "success" if the runner returned no error and exit
-- code 0, and "failed" otherwise.
pub push_then_run :
    (runner : Runner) (c : Config) (e : PushEvent) (s : Db) (row : Repository)
    → s.outages ≡ []
    → c.has_ci ≡ true
    → is_deletion e.new_hash ≡ false
    → find? (has_repo_id e.repository_id) s.repositories ≡ some row
    → (read_build_command c row.path e.new_hash == "") ≡ false
    → any (is_job s.job_seq) s.jobs ≡ false
    → let command = read_build_command c row.path e.new_hash in
      let (posts, launches, t) = push_received c e s in
      (launches ≡ launch_of e.repository_id s.job_seq e.new_hash e.branch command ∷ [])
      × (find?
            (is_job s.job_seq)
            (run_one runner e.repository_id s.job_seq e.new_hash e.branch command t).1.jobs
          ≡ some (
              ended_job
                (ending_of (runner row.path e.new_hash e.branch command))
                s.clock
                (job_row e.repository_id s.job_seq s.clock e.new_hash e.branch "push" "")))
unfolding push_received
push_then_run runner c e s row up on new found set fresh =
    let t = (notify c e.repository_id "push" e.owner e.name e.actor _ s).1 in
    let (up', repositories, jobs, job_seq, clock) =
      notify-Kept c e.repository_id "push" e.owner e.name e.actor
        (e.branch ∷ e.new_hash ∷ e.old_hash ∷ []) s up in
    let there =
      queued-run runner c e.repository_id e.new_hash e.branch "push" "" t row up' on
        (rw repositories found) set (rw (jobs, job_seq) fresh) in
    rw new (rw (job_seq, clock) at there)
