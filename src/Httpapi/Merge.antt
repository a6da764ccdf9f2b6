-- ===== src/Httpapi/Merge.antt =====
-- What mergePullRequestRoute of internal/httpapi/collab.go does on every branch.
use git_castle.Prelude.{
  find?-update, find?-sat, update, ◌∷◌, refl, eq_iff, arith, true, false, [], find?, some, ◌≡◌, ℕ,
  String,
}
use git_castle.Httpapi.Pulls.{finish_merge, merge_pull_request_route, Merger}
use git_castle.Httpapi.Request.{parse_positive, Request}
use git_castle.Db.{Db}
use git_castle.Repos.Types.{Repository}
use git_castle.Collab.Types.{MergeCheck, PullRow}
use git_castle.Repos.Service.{get}
use git_castle.Errors.{error_text, err, Error, ok}
use git_castle.Collab.Pulls.{is_open_pull, get_pull_request, closed_as, is_pull}
use git_castle.Collab.Consistency.{IsConsistent}
use git_castle.Collab.Approvals.{evaluate_merge_correct, one_pull, approving, required_in}
use git_castle.Httpapi.Reply.{Reply, pull_body, merged, error_body, blocked, git_merge, Effect}
use git_castle.Collab.Lifecycle.{set-open, merge_of, ended_row}
use git_castle.Collab.Protection.{is_rule, evaluate_merge}
use git_castle.Prelude.Int.{pos, ◌≤ℤ◌}
use git_castle.Exec.{statement_up}
use git_castle.Prelude.Text.{append}

module _ (merger : Merger) (r : Request) (s : Db) (repository : Repository) (number : ℕ)
    (row : PullRow) where
  -- Open, and with the approvals that the target branch's rule requires.
  abbrev IsApproved : Type 0
  IsApproved =
      (row.pull.state ≡ "open")
      × (required_in (find? (is_rule repository.id row.pull.target_branch) s.protections)
          ≤ℤ pos (approving row.id s.reviews))

  abbrev call : Effect
  call =
      git_merge repository.owner repository.name number row.pull.source_branch
        row.pull.target_branch r.user.username

  abbrev event : String → Effect
  event hash =
      merged repository.id repository.owner repository.name number r.user.username hash
        row.pull.source_branch row.pull.target_branch

  abbrev merged_row : String → PullRow
  merged_row hash = ended_row "merged" (merge_of hash) s.clock row

  -- The three outcomes of an existing pull request.
  abbrev pub Outcome : Reply × Db → Type 0
  Outcome (reply, t) =
      let result =
        merger repository.owner repository.name number row.pull.source_branch row.pull.target_branch
          r.user.username in
      (¬ IsApproved → (reply.status ≡ 422) × (reply.effects ≡ []) × (t ≡ s))
      × (IsApproved
          → (e : Error) → result ≡ err e
          → (reply.status ≡ 409) × (reply.effects ≡ call ∷ []) × (t ≡ s))
      × (IsApproved
          → (hash : String) → result ≡ ok hash
          → (reply.status ≡ 200)
            × (find? (is_pull repository.id number) t.pulls ≡ some (merged_row hash))
            × (reply.effects ≡ call ∷ event hash ∷ []))

  module _ (resolved : get r.owner r.name s ≡ (ok repository, s))
      (parsed : parse_positive r.number ≡ some number)
      (found : find? (is_pull repository.id number) s.pulls ≡ some row)
      (consistent : IsConsistent s) (up : s.outages ≡ []) where
    route_blocked :
        (check : MergeCheck)
        → evaluate_merge repository.id number s ≡ (ok check, s)
        → check.mergable ≡ false
        → merge_pull_request_route (some merger) true r s
          ≡ (record { status = 422; body = blocked check.blockers; effects = [] }, s)
    unfolding merge_pull_request_route
    route_blocked check e no_merge = rw (resolved, parsed, e, no_merge)

    module _ (check : MergeCheck)
        (evaluated : evaluate_merge repository.id number s ≡ (ok check, s))
        (may_merge : check.mergable ≡ true) where
      read_pull : get_pull_request repository.id number s ≡ (ok row.pull, s)
      unfolding get_pull_request
      read_pull = rw (statement_up _ _ s up, found)

      route_conflict :
          (e : Error)
          → merger repository.owner repository.name number row.pull.source_branch
              row.pull.target_branch r.user.username
            ≡ err e
          → merge_pull_request_route (some merger) true r s ≡ (
            record {
              status = 409;
              body = error_body (append "git merge failed: " (error_text e));
              effects = call ∷ [];
            },
            s,
          )
      unfolding merge_pull_request_route
      route_conflict e conflict = rw (resolved, parsed, evaluated, may_merge, read_pull, conflict)

      route_merged :
          (hash : String)
          → merger repository.owner repository.name number row.pull.source_branch
              row.pull.target_branch r.user.username
            ≡ ok hash
          → row.pull.state ≡ "open"
          → merge_pull_request_route (some merger) true r s ≡ (
            record {
              status = 200;
              body = pull_body (merged_row hash).pull;
              effects = call ∷ event hash ∷ [];
            },
            record s {
              pulls =
                  update
                    (is_open_pull repository.id number)
                    (closed_as "merged" (merge_of hash) s.clock)
                    s.pulls;
            },
          )
      unfolding merge_pull_request_route finish_merge
      route_merged hash done is_open =
          rw
            (
              resolved,
              parsed,
              evaluated,
              may_merge,
              read_pull,
              done,
              set-open s repository.id number "merged" hash
                  (one_pull s repository.id number row consistent found) up refl row found
                  (ground (arith, eq_iff row.pull.state "open")),
            )
            refl

    stored_as_merged :
        (hash : String)
        → row.pull.state ≡ "open"
        → find? (is_pull repository.id number) (
            update
              (is_open_pull repository.id number)
              (closed_as "merged" (merge_of hash) s.clock)
              s.pulls)
          ≡ some (merged_row hash)
    stored_as_merged hash is_open = ground (
      arith,
      find?-sat (is_pull repository.id number) s.pulls row found,
      eq_iff row.pull.state "open",
      find?-update (is_pull repository.id number) (is_open_pull repository.id number)
          (closed_as "merged" (merge_of hash) s.clock) s.pulls (λ x _. refl),
    )

    -- POST …/pulls/{number}/merge for an existing pull request, on well-formed tables, with a merger
    -- and a subscriber and without outages. If the pull request is not open, or has fewer approving
    -- reviews than the rule of its target branch requires, the answer is 422, nothing is called and
    -- nothing changes. If it is approved and the git merge fails, the answer is 409, the merge was
    -- attempted once and nothing changes. If the merge returns a hash, the answer is 200, the row is
    -- found as merged with that hash, and the subscriber is told after the merge. No role of the user
    -- on the repository is asked for.
    pub merge_route_correct : Outcome (merge_pull_request_route (some merger) true r s)
    merge_route_correct =
        let (check, evaluated, _, _, verdict) =
          evaluate_merge_correct s repository.id number row consistent found up in
        (
          (λ not_approved.
              let no_merge : check.mergable ≡ false = ground (arith, verdict, not_approved) in
              rw (route_blocked check evaluated no_merge) (refl, refl, refl)),
          (λ approved e conflict.
              rw (route_conflict check evaluated (verdict.1 approved) e conflict)
                (refl, refl, refl)),
          (λ approved hash done.
              rw (route_merged check evaluated (verdict.1 approved) hash done approved.0)
                (refl, stored_as_merged hash approved.0, refl)),
        )
