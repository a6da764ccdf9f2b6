-- ===== src/Tests/Collab.antt =====
-- Witnesses for internal/collab.
use git_castle.Tests.Samples.{server, server-IsConsistent, pull, approval}
use git_castle.Collab.Consistency.{run-IsConsistent, IsConsistent}
use git_castle.Prelude.{eq_iff, ◌↔◌, arith, some, refl, ◌≡◌, true, false, [], ◌∷◌, find?}
use git_castle.Collab.Pulls.{set_pull_request_state, is_pull}
use git_castle.Collab.Trace.{review, wait, fail, open_pull, end_pull, run}
use git_castle.Collab.Lifecycle.{run-ended, set_pull_request_state_lem, Settled}
use git_castle.Collab.Types.{MergeCheck}
use git_castle.Collab.Protection.{is_rule, evaluate_merge}
use git_castle.Errors.{ok}
use git_castle.Collab.Approvals.{
  evaluate_merge_correct, evaluate_merge_rule_outage, required_in, approving,
}
use git_castle.Prelude.Int.{◌≤ℤ◌, pos}

run-IsConsistent_example : IsConsistent (
    run
      (open_pull 1 "bob" "Moat" "" "moat" "main"
        ∷ fail (false ∷ true ∷ [])
        ∷ review 1 1 "carol" "approved" ""
        ∷ end_pull 1 1 "merged" "c0ffee"
        ∷ [])
      (server "open" (approval ∷ []) []))
run-IsConsistent_example = run-IsConsistent _ _ (server-IsConsistent "open" [])

run-ended_example :
    find?
      (is_pull 1 1)
      (run
        (end_pull 1 1 "closed" "" ∷ wait 60 ∷ review 1 1 "dave" "commented" "" ∷ [])
        (server "merged" (approval ∷ []) [])).pulls
    ≡ some (pull "merged")
unfolding find?
run-ended_example =
    run-ended _ (server "merged" (approval ∷ []) []) 1 1 (pull "merged") refl
      (ground (arith, eq_iff "merged" "open"))

set_pull_request_state_lem_example :
    let s = server "open" (approval ∷ []) [] in
    Settled s 1 1 "merged" "c0ffee" (set_pull_request_state 1 1 "merged" "c0ffee" s)
set_pull_request_state_lem_example =
    set_pull_request_state_lem (server "open" (approval ∷ []) []) 1 1 "merged" "c0ffee"
      (server-IsConsistent "open" []) refl

evaluate_merge_correct_example :
    let s = server "open" (approval ∷ []) [] in
    (check : MergeCheck) × (evaluate_merge 1 1 s ≡ (ok check, s))
    × (check.current_approvals ≡ approving 1 s.reviews)
    × (check.required_approvals ≡ required_in (find? (is_rule 1 "main") s.protections))
    × ((check.mergable ≡ true) ↔ (
        ((pull "open").pull.state ≡ "open")
        × (required_in (find? (is_rule 1 "main") s.protections) ≤ℤ pos (approving 1 s.reviews))))
unfolding find?
evaluate_merge_correct_example =
    evaluate_merge_correct (server "open" (approval ∷ []) []) 1 1 (pull "open")
      (server-IsConsistent "open" []) refl refl

evaluate_merge_rule_outage_example :
    let s = server "open" (approval ∷ []) (false ∷ true ∷ []) in
    (check : MergeCheck) × (evaluate_merge 1 1 s ≡ (ok check, record s { outages = [] }))
    × (check.required_approvals ≡ pos 0)
    × ((check.mergable ≡ true) ↔ ((pull "open").pull.state ≡ "open"))
unfolding find?
evaluate_merge_rule_outage_example =
    evaluate_merge_rule_outage (server "open" (approval ∷ []) (false ∷ true ∷ [])) 1 1 (pull "open")
      (server-IsConsistent "open" (false ∷ true ∷ [])) refl refl
