-- ===== src/Automation/Fanout.antt =====
-- internal/automation/fanout.go and the event records of events.go. Outside of this repository are
-- `git show` and the goroutine that runs a job: the jobs to run are returned.
use git_castle.Webhooks.Dispatcher.{Network, Post, dispatch}
use git_castle.Ci.Store.{create_job}
use git_castle.Ci.Executor.{repo_path}
use git_castle.Db.{Db}
use git_castle.Prelude.{
  none, ◌||◌, not, [], ◌∷◌, ◌==◌, some, if◌then◌else◌, ℕ, String, Option, List, Bool,
}
use git_castle.Errors.{ok, err, Result}
use git_castle.Prelude.Int.{ℤ}
use git_castle.Prelude.Text.{trim_prefix, is_space, trim, split, has_prefix, append}
use git_castle.Ci.Types.{Job}

pub record MergeEvent : Type 0 where
  pub repository_id : ℕ
  pub owner : String
  pub name : String
  pub number : ℕ
  pub actor : String
  pub merge_commit : String
  pub source_branch : String
  pub target_branch : String

pub record PushEvent : Type 0 where
  pub repository_id : ℕ
  pub owner : String
  pub name : String
  pub actor : String
  pub branch : String
  pub old_hash : String
  pub new_hash : String

-- The arguments of Executor.RunOne in the new goroutine
pub record Launch : Type 0 where
  pub repository_id : ℕ
  pub job_id : ℕ
  pub commit_hash : String
  pub branch : String
  pub command : String

pub record Config : Type 0 where
  -- whether a dispatcher with its store, and the CI store with its executor, are set
  pub has_dispatcher : Bool
  pub has_ci : Bool
  pub network : Network
  pub max_retries : ℤ
  -- `git show commit:.gitcastle.yml` in a bare repository; none if git fails
  pub show_config : (bare_path commit : String) → Option String
  -- the JSON of a webhook's payload; none if it cannot be encoded
  pub encode : (event repository actor : String) (fields : List String) → Option String
  -- a number in decimal digits
  pub show_number : ℕ → String

-- The first line that begins with `run:`
unfoldable pub run_line : List String → String
run_line [] = ""
run_line (line ∷ rest) =
    if has_prefix line "run:" then trim is_space (trim_prefix line "run:") else run_line rest

abbrev pub command_in : Option String → String
command_in none = ""
command_in (some text) = run_line (split b'\n' text)

-- readBuildCommand
unfoldable pub read_build_command : Config → String → String → String
read_build_command c bare_path commit = command_in (c.show_config bare_path commit)

-- The end of queueJob: errors are logged and dropped.
abbrev pub launched : ℕ → String → String → String → Result Job × Db → List Launch × Db
launched repo commit branch command (err e, s) = ([], s)
launched repo commit branch command (ok job, s) =
    let launch : Launch = record {
      repository_id = repo;
      job_id = job.id;
      commit_hash = commit;
      branch = branch;
      command = command;
    } in
    (launch ∷ [], s)

abbrev pub queue_in :
    Config → ℕ → String → String → String → String → Result String × Db → List Launch × Db
queue_in c repo commit branch kind ref (err e, s) = ([], s)
queue_in c repo commit branch kind ref (ok bare_path, s) =
    let command = read_build_command c bare_path commit in
    if command == ""
    then ([], s)
    else launched repo commit branch command (create_job repo commit branch kind ref s)

-- queueJob
unfoldable pub queue_job : Config → ℕ → String → String → String → String → Db → List Launch × Db
queue_job c repo commit branch kind ref s =
    if not c.has_ci then ([], s) else queue_in c repo commit branch kind ref (repo_path repo s)

abbrev pub notify :
    Config → ℕ → String → String → String → String → List String → Db → List Post × Db
notify c repo event owner name actor fields s =
    let slug = append owner (append "/" name) in
    if c.has_dispatcher
    then dispatch c.network c.max_retries repo event (c.encode event slug actor fields) s
    else ([], s)

-- The posts and the launches of an event
abbrev pub Fanout : Type 0
Fanout = List Post × List Launch × Db

abbrev pub then_queue : List Post × Db → (Db → List Launch × Db) → Fanout
then_queue (posts, s) queue = let (launches, t) = queue s in (posts, launches, t)

-- PullRequestMerged
unfoldable pull_request_merged : Config → MergeEvent → Db → Fanout
pull_request_merged c e s =
    then_queue
      (notify c e.repository_id "pull_request" e.owner e.name e.actor
        ("merged" ∷ c.show_number e.number ∷ e.merge_commit ∷ []) s)
      (queue_job c e.repository_id e.merge_commit e.target_branch "pull_request"
        (c.show_number e.number))

abbrev pub zero_hash : String
zero_hash = "0000000000000000000000000000000000000000"

abbrev pub is_deletion : String → Bool
is_deletion hash = hash == "" || hash == zero_hash

-- PushReceived; the deletion of a branch starts no job.
unfoldable pub push_received : Config → PushEvent → Db → Fanout
push_received c e s =
    then_queue
      (notify c e.repository_id "push" e.owner e.name e.actor
        (e.branch ∷ e.new_hash ∷ e.old_hash ∷ []) s)
      λ t.
        if is_deletion e.new_hash
        then ([], t)
        else queue_job c e.repository_id e.new_hash e.branch "push" "" t
