-- ===== src/Tests/Automation.antt =====
-- Witnesses for internal/automation.
use git_castle.Prelude.{◌∷◌, ◌≡◌, some, true, none, false, any, [], find?, refl}
use git_castle.Tests.Samples.{castle, server}
use git_castle.Automation.Fanout.{push_received, run_line, read_build_command, PushEvent, Config}
use git_castle.Ci.Executor.{run_one, Runner}
use git_castle.Db.{Db}
use git_castle.Prelude.Int.{pos}
use git_castle.Automation.Jobs.{push_then_run, job_row, launch_of}
use git_castle.Ci.Store.{is_job}
use git_castle.Ci.Outcome.{ending_of, ended_job}
use git_castle.Automation.Quoting.{quote_shell-read_word, outside, read_word}
use git_castle.Automation.Hook.{quote_shell}

abbrev pub runner : Runner
runner path commit branch command = (record { exit_code = pos 0; output = command }, none)

abbrev pub config : Config
config = record {
  has_dispatcher = false;
  has_ci = true;
  network = record { hmac = λ s p. p; answer = λ p n. 200; is_done = λ h n. false };
  max_retries = pos 0;
  show_config = λ path commit. some "run: make test";
  encode = λ event repo actor fields. some "{}";
  show_number = λ n. "1";
}

abbrev push : PushEvent
push = record {
  repository_id = 1;
  owner = "alice";
  name = "castle";
  actor = "alice";
  branch = "main";
  old_hash = "decade";
  new_hash = "c0ffee";
}

abbrev tables : Db
tables = server "open" [] []

push_then_run_example :
    let command = read_build_command config castle.path "c0ffee" in
    let (posts, launches, t) = push_received config push tables in
    (launches ≡ launch_of 1 1 "c0ffee" "main" command ∷ [])
    × (find? (is_job 1) (run_one runner 1 1 "c0ffee" "main" command t).1.jobs
        ≡ some (
            ended_job
              (ending_of (runner castle.path "c0ffee" "main" command))
              9
              (job_row 1 1 9 "c0ffee" "main" "push" "")))
unfolding find? any read_build_command run_line git_castle.Prelude.Text.split
    git_castle.Prelude.Text.cut_prefix git_castle.Prelude.Text.trim
push_then_run_example = push_then_run runner config push tables castle refl refl refl refl refl refl

quote_shell-read_word_example :
    read_word outside (quote_shell "it's $HOME; rm -rf /") ≡ some "it's $HOME; rm -rf /"
quote_shell-read_word_example = quote_shell-read_word "it's $HOME; rm -rf /"
