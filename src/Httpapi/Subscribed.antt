-- ===== src/Httpapi/Subscribed.antt =====
-- What a webhook that is created hears of.
use git_castle.Httpapi.Automation.{events_of, HookInput, create_webhook_route}
use git_castle.Prelude.{
  Bool-cases, ap, inr, inl, false, ◌⊎◌, any, ◌||◌, ◌==◌, ◌&&◌, ◌∙◌, eqb, refl, some, arith,
  if◌then◌else◌, ◌∷◌, ◌++◌, true, [], ◌≡◌, List, String, ℕ, filter,
}
use git_castle.Webhooks.Store.{matching, subscribes, new_hook, insert_hook, create_hook}
use git_castle.Db.{Db}
use git_castle.Httpapi.Request.{Request}
use git_castle.Webhooks.Types.{Hook, HookRow}
use git_castle.Repos.Types.{Repository}
use mathlib.Core.List.{map}
use git_castle.Repos.Service.{get}
use git_castle.Errors.{ok}
use git_castle.Exec.{statement_up}
use git_castle.Httpapi.Reply.{hook_body}

matching-added :
    (repo : ℕ) (event : String) (rows : List HookRow) (row : HookRow)
    → map (λ row. row.hook) (filter (subscribes repo event) (rows ++ row ∷ []))
      ≡ map (λ row. row.hook) (filter (subscribes repo event) rows)
        ++ (if subscribes repo event row then row.hook ∷ [] else [])
unfolding filter
matching-added repo event [] row = ground arith
matching-added repo event (first ∷ rows) row = ground (arith, matching-added repo event rows row)

-- The webhook that the input asks for: for pushes and pull requests where it names no events
abbrev pub asked_for : ℕ → HookInput → Hook
asked_for id input = record {
  id = id;
  url = input.url;
  secret = input.secret;
  events = elim input.events as (λ _. List String) [
    | [] ↦ "push" ∷ "pull_request" ∷ []
    | event ∷ events ↦ event ∷ events
  ];
}

-- The hooks that hear of an event in the repository `other`, if `hook` is in `repo`: an empty event
-- stands for all.
abbrev pub heard_by : Hook → (repo other : ℕ) (event : String) → List Hook
heard_by hook repo other event =
    if eqb repo other && (event == "" || any (λ e. e == event) hook.events) then hook ∷ [] else []

hook_asked :
    (id : ℕ) (url secret : String) (events : List String)
    → new_hook id url secret (events_of events)
      ≡ asked_for id (record { url = url; secret = secret; events = events })
hook_asked id url secret [] = refl
hook_asked id url secret (event ∷ events) = refl

heard-added :
    (hook : Hook) (repo other : ℕ) (event : String) (rows : List HookRow)
    → map
        (λ row. row.hook)
        (filter
          (subscribes other event)
          (rows ++ record { repository_id = repo; hook = hook; active = true } ∷ []))
      ≡ map (λ row. row.hook) (filter (subscribes other event) rows)
        ++ heard_by hook repo other event
heard-added hook repo other event rows =
    matching-added other event rows _
    ∙ ap (λ l. map (λ row. row.hook) (filter (subscribes other event) rows) ++ l)
        (same (Bool-cases (event == "")))
  where
    same :
        ((event == "") ≡ true) ⊎ ((event == "") ≡ false)
        → (if subscribes other event (record { repository_id = repo; hook = hook; active = true })
            then hook ∷ []
            else [])
          ≡ heard_by hook repo other event
    same (inl h) = rw h (ground arith)
    same (inr h) = rw h (ground arith)

-- Without outages, a webhook that is created in a stored repository has the URL, the secret and the
-- events of the input, or "push" and "pull_request" where it names none. It is answered with 201,
-- and from then on the hooks to call for an event are those before and, in that repository and for
-- an event among its own, the new one after them; the empty event asks for all hooks.
pub create_webhook_route_lem :
    (r : Request) (input : HookInput) (repository : Repository) (s : Db)
    → s.outages ≡ []
    → get r.owner r.name s ≡ (ok repository, s)
    → let (reply, t) = create_webhook_route r (some input) s in
      let hook = asked_for s.hook_seq input in
      (reply.status ≡ 201)
      × (reply.body ≡ hook_body hook)
      × ((repo : ℕ) (event : String)
          → matching repo event t ≡ matching repo event s ++ heard_by hook repository.id repo event)
unfolding create_webhook_route create_hook insert_hook
create_webhook_route_lem r input repository s up resolved =
    let hook = hook_asked s.hook_seq input.url input.secret input.events in
    rw
      (
        resolved,
        statement_up "insert webhook"
            (insert_hook repository.id input.url input.secret (events_of input.events)) s up,
        hook,
      )
      (
        refl,
        refl,
        λ repo event. heard-added (asked_for s.hook_seq input) repository.id repo event s.hooks,
      )
