-- ===== src/Httpapi/Pushed.antt =====
-- The callback of a post-receive hook, from the request to the end of the job that it starts.
use git_castle.Automation.Fanout.{Launch, read_build_command, push_received, is_deletion, Config}
use git_castle.Ci.Executor.{run_one, has_repo_id, Runner}
use git_castle.Prelude.{
  ap, ◌∙◌, refl, ◌∷◌, ◌++◌, List, eq_refl, any, find?, some, Option, true, false, [], ◌≡◌, ◌==◌,
  String,
}
use git_castle.Db.{Db}
use git_castle.Httpapi.Notify.{
  adapted, notified, receive_push, lacks_field, notify_push_route, HookPushPayload,
}
use git_castle.Repos.Types.{Repository}
use git_castle.Repos.Service.{get}
use git_castle.Errors.{ok}
use git_castle.Httpapi.Reply.{job_launched, posted, error_body, write_json}
use git_castle.Ci.Store.{is_job}
use git_castle.Webhooks.Dispatcher.{Post}
use mathlib.Core.List.{map}
use git_castle.Automation.Jobs.{push_then_run, job_row, launch_of}
use git_castle.Ci.Outcome.{ending_of, ended_job}
use mathlib.Core.List.{append-nil}

module _ (config : Config) (internal : String) (s : Db) (set : (internal == "") ≡ false) where
  refuses :
      (token : String) (body : Option HookPushPayload)
      → (token == internal) ≡ false
      → notify_push_route (some config) internal token body s
        ≡ write_json 401 (error_body "invalid token") s
  unfolding notify_push_route
  refuses token body wrong = rw (set, wrong) refl

  accepts :
      (input : HookPushPayload) (row : Repository)
      → lacks_field input ≡ false
      → get input.owner input.name s ≡ (ok row, s)
      → notify_push_route (some config) internal internal (some input) s
        ≡ notified (push_received config (adapted row.id input) s)
  unfolding notify_push_route receive_push
  accepts input row filled resolved = rw (set, eq_refl, filled, resolved) refl

-- The callback of a push with the internal token, which is not empty, for a stored repository whose
-- build file has a command at a new commit, without outages: the answer is 200, and after the
-- webhooks exactly one job is launched, for that commit and branch; when it has run, its row says
-- what the runner returned. With any other token the answer is 401, whatever the body, and neither
-- the tables nor the outside see anything.
pub notify_push_route_lem :
    (runner : Runner) (config : Config) (internal : String) (input : HookPushPayload)
    (row : Repository) (s : Db)
    → s.outages ≡ []
    → (internal == "") ≡ false
    → config.has_ci ≡ true
    → lacks_field input ≡ false
    → is_deletion input.new_hash ≡ false
    → get input.owner input.name s ≡ (ok row, s)
    → find? (has_repo_id row.id) s.repositories ≡ some row
    → (read_build_command config row.path input.new_hash == "") ≡ false
    → any (is_job s.job_seq) s.jobs ≡ false
    → let command = read_build_command config row.path input.new_hash in
      let (reply, t) = notify_push_route (some config) internal internal (some input) s in
      ((reply.status ≡ 200)
        × ((posts : List Post) × (reply.effects
              ≡ map posted posts
                ++ job_launched (launch_of row.id s.job_seq input.new_hash input.branch command)
                  ∷ []))
        × (find?
              (is_job s.job_seq)
              (run_one runner row.id s.job_seq input.new_hash input.branch command t).1.jobs
            ≡ some (
                ended_job
                  (ending_of (runner row.path input.new_hash input.branch command))
                  s.clock
                  (job_row row.id s.job_seq s.clock input.new_hash input.branch "push" ""))))
      × ((token : String) (body : Option HookPushPayload)
          → (token == internal) ≡ false
          → notify_push_route (some config) internal token body s
            ≡ write_json 401 (error_body "invalid token") s)
notify_push_route_lem runner config internal input row s up set on filled new resolved found build
      fresh =
    let pushed = push_received config (adapted row.id input) s in
    let (launched, ran) =
      push_then_run runner config (adapted row.id input) s row up on new found build fresh in
    (
      rw (accepts config internal s set input row filled resolved) (
        refl,
        (
          pushed.0,
          append-nil _
              ∙ ap {A = List Launch} (λ l. map posted pushed.0 ++ map job_launched l) launched,
        ),
        ran,
      ),
      λ token body wrong. refuses config internal s set token body wrong,
    )
