-- ===== src/Ci/DockerRunner.antt =====
-- Runner.Run of internal/ci/runner.go. The file system, git on the host and docker are parameters;
-- the time limit is among what docker does.
use git_castle.Errors.{plain, failed, Error}
use git_castle.Prelude.{
  none, [], ◌∷◌, ◌==◌, zero, some, not, ltb, suc, if◌then◌else◌, Option, List, Bool, ℕ, String,
}
use git_castle.Prelude.Int.{negsuc, pos, ℤ}
use git_castle.Ci.Executor.{is_zero, RunResult}
use git_castle.Prelude.Text.{byte_length, append}

-- How `docker run` ends: with an exit code, or with an error of its own
pub data DockerEnd : Type 0 where
  exits : ℤ → DockerEnd
  docker_error : String → DockerEnd

pub record Host : Type 0 where
  pub mkdir_works : String → Bool
  -- os.MkdirTemp
  pub mkdir_temp : String → Option String
  -- git on the host: what it printed where it fails
  pub host_git : List String → Option String
  -- the arguments of docker: what it printed, and how it ended
  pub docker : List String → String × DockerEnd
  pub temp_dir : String
  pub pid : String

pub record RunnerConfig : Type 0 where
  pub image : String
  pub work_root : String

-- The first bytes of a hash, which is ASCII text
pub first_chars : ℕ → String → String
first_chars zero text = ""
first_chars (suc n) String.[] = ""
first_chars (suc n) (String.◌∷◌ c text) = String.◌∷◌ c (first_chars n text)

-- shortHash
abbrev pub short_hash : String → String
short_hash hash = if ltb 8 (byte_length hash) then first_chars 8 hash else hash

-- branchLabel
abbrev pub branch_label : String → String → String
branch_label hash branch =
    if not (branch == "") then append branch (append "@" (short_hash hash)) else short_hash hash

abbrev pub docker_args : String → String → String → String → List String
docker_args container directory image command =
    "run"
    ∷ "--rm"
    ∷ "--name"
    ∷ container
    ∷ "--network"
    ∷ "none"
    ∷ "-v"
    ∷ append directory "/src:/workspace:ro"
    ∷ "-w"
    ∷ "/workspace"
    ∷ image
    ∷ "/bin/sh"
    ∷ "-c"
    ∷ command
    ∷ []

-- The end of Run, with statusError; an exit code of 0 is no error of os/exec.
abbrev pub ended_with : String × DockerEnd → RunResult × Option Error
ended_with (output, exits code) = (
  record { exit_code = code; output = output },
  if is_zero code then none else some (plain "build failed"),
)
ended_with (output, docker_error text) = (
  record { exit_code = negsuc 0; output = append output (append "\n[docker error] " text) },
  some (failed "docker run"),
)

abbrev pub nothing_ran : Error → Option (RunResult × Option Error)
nothing_ran e = some (record { exit_code = pos 0; output = "" }, some e)

abbrev pub container_name : Host → String → String
container_name host commit =
    append "gitcastle-build-" (append host.pid (append "-" (first_chars 8 commit)))

-- After the checkout; none is the panic of commitHash[:8] on a shorter hash.
abbrev pub in_container :
    Host → RunnerConfig → String → String → String → Option (RunResult × Option Error)
in_container host config directory commit command =
    if ltb (byte_length commit) 8
    then none
    else some (
        ended_with
          (host.docker (docker_args (container_name host commit) directory config.image command)))

abbrev pub checked_out :
    Host
    → RunnerConfig
    → String
    → String
    → String
    → String
    → Option String
    → Option (RunResult × Option Error)
checked_out host config directory commit branch command none =
    in_container host config directory commit command
checked_out host config directory commit branch command (some printed) =
    nothing_ran (failed (append "checkout " (branch_label commit branch)))

abbrev pub in_directory :
    Host
    → RunnerConfig
    → String
    → String
    → String
    → String
    → Option String
    → Option (RunResult × Option Error)
in_directory host config bare_path commit branch command none =
    nothing_ran (failed "create work dir")
in_directory host config bare_path commit branch command (some directory) =
    checked_out host config directory commit branch command (
      host.host_git (
        "--git-dir"
        ∷ bare_path
        ∷ "worktree"
        ∷ "add"
        ∷ "--detach"
        ∷ append directory "/src"
        ∷ commit
        ∷ []))

-- Run
unfoldable run :
    Host → RunnerConfig → String → String → String → String → Option (RunResult × Option Error)
run host config bare_path commit branch command =
    let root = if config.work_root == "" then host.temp_dir else config.work_root in
    if config.image == ""
    then nothing_ran (plain "runner image not configured")
    else if not (host.mkdir_works root)
    then nothing_ran (failed "create work root")
    else in_directory host config bare_path commit branch command (host.mkdir_temp root)
