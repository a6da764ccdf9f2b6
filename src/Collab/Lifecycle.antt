-- ===== src/Collab/Lifecycle.antt =====
-- The lifecycle of a pull request: SetPullRequestState of internal/collab/pull_requests.go on every
-- branch, and merged or closed for good.
use git_castle.Prelude.{
  ◌∙◌, find?-sat, Bool-cases, inr, inl, revise, Option-cases, false, update, find?-unique, keep,
  ◌⊎◌, ◌||◌, true, ◌≤◌, ◌==◌, [], if◌then◌else◌, count, Bool, ℕ, ◌≡◌, refl, ◌≢◌, String, Option,
  none, some, List, arith, eq_iff, find?, find?-append, find?-update,
}
use git_castle.Db.{Db}
use git_castle.Collab.Types.{PullRequest, PullRow}
use git_castle.Collab.Issues.{insert_issue, update_issue, changed_issue, insert_comment}
use git_castle.Collab.Pulls.{
  get_pull_request, refuse, set_pull_request_state, is_pull, is_open_pull, closed_as, changed_pull,
  insert_pull, update_pull,
}
use git_castle.Collab.Reviews.{put_review}
use git_castle.Collab.Protection.{put_protection, remove_protection}
use git_castle.Collab.Consistency.{IsConsistent}
use git_castle.Collab.Trace.{Op, run, IsKept, run-Keeps}
use git_castle.Errors.{not_mergeable, ok, not_found, invalid_state, err, Result}
use git_castle.Exec.{statement_up}

module _ (repo number : ℕ) (row : PullRow) where
  abbrev Holds : Db → Type 0
  Holds s = find? (is_pull repo number) s.pulls ≡ some row

  changed_issue-Holds :
      (r n : ℕ) (state : String) (found : Option _) (s : Db)
      → Holds s
      → Holds (changed_issue r n state found s).1
  unfolding changed_issue
  changed_issue-Holds r n state none s h = h
  changed_issue-Holds r n state (some _) s h = h

  module _ (ended : row.pull.state ≢ "open") where
    changed_pull-Holds :
        (r n : ℕ) (state : String) (merge : Option String) (found : Option PullRow) (s : Db)
        → Holds s
        → Holds (changed_pull r n state merge found s).1
    unfolding changed_pull
    changed_pull-Holds r n state merge none s h = h
    changed_pull-Holds r n state merge (some _) s h = ground (
      arith,
      h,
      find?-update (is_pull repo number) (is_open_pull r n) (closed_as state merge s.clock) s.pulls
          (λ x _. refl),
      eq_iff row.pull.state "open",
    )

    Holds-IsKept : IsKept Holds
    unfolding insert_issue update_issue insert_comment insert_pull update_pull put_review
        put_protection remove_protection
    Holds-IsKept = record {
      blind = λ s bs h. h;
      timeless = λ s n h. h;
      issue_added = λ _ _ _ _. record { at = λ s h. h };
      issue_changed = λ r n state. record { at = λ s. changed_issue-Holds r n state _ s };
      comment_added = λ _ _ _ _ _. record { at = λ s h. h };
      pull_added =
          λ _ _ _ _ _ _. record { at = λ s h. find?-append (is_pull repo number) s.pulls _ row h };
      pull_changed = λ r n state merge. record { at = λ s. changed_pull-Holds r n state merge _ s };
      review_put = λ _ _ _ _. record { at = λ s h. h };
      rule_put = λ _ _. record { at = λ s h. h };
      rule_removed = λ _ _. record { at = λ s h. h };
    }

-- A pull request that is not open is final: whatever operations run, under whatever outages, its
-- row, with state, merge commit and times, is found unchanged.
pub run-ended :
    (ops : List Op) (s : Db) (repo number : ℕ) (row : PullRow)
    → find? (is_pull repo number) s.pulls ≡ some row
    → row.pull.state ≢ "open"
    → find? (is_pull repo number) (run ops s).pulls ≡ some row
run-ended ops s repo number row h ended = run-Keeps (Holds-IsKept repo number row ended) ops s h

-- A row with the state, the merge commit and the time of a transition, and all else as before.
abbrev pub ended_row : String → Option String → ℕ → PullRow → PullRow
ended_row state merge now row = record {
  id = row.id;
  repository_id = row.repository_id;
  pull = record {
    number = row.pull.number;
    title = row.pull.title;
    body = row.pull.body;
    author = row.pull.author;
    state = state;
    source_branch = row.pull.source_branch;
    target_branch = row.pull.target_branch;
    merge_commit = merge;
    created_at = row.pull.created_at;
    updated_at = now;
  };
}

-- The row of a pull request after a transition.
abbrev pub ended_as : String → String → ℕ → Option PullRow → Option PullRow
ended_as state commit now none = none
ended_as state commit now (some row) = some (
    if row.pull.state == "open"
    then ended_row state (if commit == "" then none else some commit) now row
    else row)

-- What the transition answers.
abbrev pub outcome : String → String → ℕ → Option PullRow → Result PullRequest
outcome state commit now none = err not_found
outcome state commit now (some row) =
    if row.pull.state == "open"
    then ok (ended_row state (if commit == "" then none else some commit) now row).pull
    else err not_mergeable

abbrev pub merge_of : String → Option String
merge_of commit = if commit == "" then none else some commit

abbrev pub is_final : String → Bool
is_final state = state == "merged" || state == "closed"

module _ (s : Db) (repo number : ℕ) (state commit : String)
    (one : count (is_pull repo number) s.pulls ≤ 1) (up : s.outages ≡ [])
    (final : is_final state ≡ true) where
  open_row :
      find? (is_open_pull repo number) s.pulls
      ≡ keep (λ r. r.pull.state == "open") (find? (is_pull repo number) s.pulls)
  open_row = find?-unique (is_pull repo number) (λ r. r.pull.state == "open") s.pulls one

  set-missing :
      find? (is_pull repo number) s.pulls ≡ none
      → set_pull_request_state repo number state commit s ≡ (err not_found, s)
  unfolding set_pull_request_state update_pull changed_pull refuse get_pull_request
  set-missing missing =
      rw (final, statement_up _ _ s up, open_row, missing, statement_up _ _ s up, missing)

  set-ended :
      (row : PullRow)
      → find? (is_pull repo number) s.pulls ≡ some row
      → (row.pull.state == "open") ≡ false
      → set_pull_request_state repo number state commit s ≡ (err not_mergeable, s)
  unfolding set_pull_request_state update_pull changed_pull refuse get_pull_request
  set-ended row found ended =
      rw (final, statement_up _ _ s up, open_row, found, ended, statement_up _ _ s up, found)

  pub set-open :
      (row : PullRow)
      → find? (is_pull repo number) s.pulls ≡ some row
      → (row.pull.state == "open") ≡ true
      → set_pull_request_state repo number state commit s ≡ (
        ok (closed_as state (merge_of commit) s.clock row).pull,
        record s {
          pulls =
              update (is_open_pull repo number) (closed_as state (merge_of commit) s.clock) s.pulls;
        },
      )
  unfolding set_pull_request_state update_pull changed_pull
  set-open row found is_open = rw (final, statement_up _ _ s up, open_row, found, is_open)

revise_other :
    (repo number r n : ℕ) (f : PullRow → PullRow) (rows : List PullRow)
    → (r ≢ repo) ⊎ (n ≢ number)
    → revise (is_open_pull repo number) f (find? (is_pull r n) rows) ≡ find? (is_pull r n) rows
revise_other repo number r n f rows other =
    let at = Option-cases (find? (is_pull r n) rows) in go at
  where
    go :
        (find? (is_pull r n) rows ≡ none) ⊎ ((x : PullRow) × (find? (is_pull r n) rows ≡ some x))
        → revise (is_open_pull repo number) f (find? (is_pull r n) rows) ≡ find? (is_pull r n) rows
    go (inl missing) = rw missing
    go (inr (x, found)) =
        let same = find?-sat (is_pull r n) rows x found in ground (arith, same, found)

-- The three parts of what a transition does.
abbrev pub Transition : Db → ℕ → ℕ → String → String → Result PullRequest × Db → Type 0
Transition s repo number state commit after =
    (after.0 ≡ outcome state commit s.clock (find? (is_pull repo number) s.pulls))
    × (find? (is_pull repo number) after.1.pulls
        ≡ ended_as state commit s.clock (find? (is_pull repo number) s.pulls))
    × ((r n : ℕ)
        → (r ≢ repo) ⊎ (n ≢ number)
        → find? (is_pull r n) after.1.pulls ≡ find? (is_pull r n) s.pulls)

module _ (s : Db) (repo number : ℕ) (state commit : String)
    (one : count (is_pull repo number) s.pulls ≤ 1) (up : s.outages ≡ [])
    (final : is_final state ≡ true) where
  closes :
      (p : PullRow → Bool)
      → ((x : PullRow) (m : Option String) → p (closed_as state m s.clock x) ≡ p x)
      → find? p
          (update (is_open_pull repo number) (closed_as state (merge_of commit) s.clock) s.pulls)
        ≡ revise
            (is_open_pull repo number)
            (closed_as state (merge_of commit) s.clock)
            (find? p s.pulls)
  closes p same =
      find?-update p (is_open_pull repo number) (closed_as state (merge_of commit) s.clock) s.pulls
        (λ x _. same x (merge_of commit))

  transition :
      Transition s repo number state commit (set_pull_request_state repo number state commit s)
  transition = elim (Option-cases (find? (is_pull repo number) s.pulls)) [
    | inl missing ↦
        rw (set-missing s repo number state commit one up final missing)
          (rw missing (refl, refl, λ r n _. refl))
    | inr (row, found) ↦ elim (Bool-cases (row.pull.state == "open")) [
      | inl is_open ↦ rw (set-open s repo number state commit one up final row found is_open) (
        rw (found, is_open),
        ground (
          arith,
          find?-sat (is_pull repo number) s.pulls row found,
          closes (is_pull repo number) (λ x m. refl),
        ),
        λ r n other.
            closes (is_pull r n) (λ x m. refl) ∙ revise_other repo number r n _ s.pulls other,
      )
      | inr ended ↦
          rw (set-ended s repo number state commit one up final row found ended)
            (rw (found, ended) (refl, refl, λ r n _. refl))
    ]
  ]

-- What a transition does: to a final state, and to a text that is none.
abbrev pub Settled : Db → ℕ → ℕ → String → String → Result PullRequest × Db → Type 0
Settled s repo number state commit after =
    ((state ≡ "merged") ⊎ (state ≡ "closed") → Transition s repo number state commit after)
    × (state ≢ "merged" → state ≢ "closed" → after ≡ (err invalid_state, s))

-- Without outages, on well-formed tables, SetPullRequestState with the state "merged" or "closed"
-- answers "not found" for a missing pull request and "not mergeable" for one that is not open, and
-- leaves the row as it is; an open one gets the state, the merge commit (none for an empty text)
-- and the time, and is returned so. No other pull request's row changes. Any other state is
-- refused as invalid, whatever the tables hold, and nothing changes.
pub set_pull_request_state_lem :
    (s : Db) (repo number : ℕ) (state commit : String)
    → IsConsistent s
    → s.outages ≡ []
    → Settled s repo number state commit (set_pull_request_state repo number state commit s)
unfolding set_pull_request_state
set_pull_request_state_lem s repo number state commit consistent up = (
  (λ final.
      transition s repo number state commit (ground (arith, consistent.1 repo number)) up
        (ground (arith, eq_iff state "merged", eq_iff state "closed"))),
  (λ not_merged not_closed.
      let other : is_final state ≡ false =
        ground (arith, eq_iff state "merged", eq_iff state "closed") in
      rw other),
)
