-- ===== src/Collab/Consistency.antt =====
-- The well-formedness of the collaboration tables, kept by every operation of internal/collab.
mod Upserts
use git_castle.Prelude.{
  ℕ, zero, suc, ◌+◌, ◌≤◌, ◌<◌, ◌≡◌, refl, String, Bool, true, false, ◌&&◌, not, Option, none, some,
  List, [], ◌∷◌, ◌++◌, arith, eqb, ltb, count-append, count-update, count-any, count-delete-le,
  if◌then◌else◌, any, count, update, delete, eq_iff, ◌||◌, find?, subst, ◌==◌, All, Bool-cases, inl,
  inr, ◌⊎◌,
}
use git_castle.Errors.{Error, Result, ok, err, invalid_state, not_mergeable, plain}
use git_castle.Db.{Db}
use git_castle.Exec.{
  Exec, Keeps, Keeps-raise, Keeps-pure, Keeps-bind, Keeps-if, Keeps-statement, statement,
}
use git_castle.Collab.Types.{
  Issue, IssueRow, PullRequest, PullRow, Review, ReviewRow, BranchProtection, ProtectionRow,
}
use git_castle.Collab.Sequence.{IsNumbered, IsNumbered-append, IsNumbered-update, max_number}
use git_castle.Collab.Issues.{
  repo_of_issue, number_of_issue, repo_of_pull, number_of_pull, create_issue, set_issue_state,
  add_comment, changed_issue, update_issue, insert_issue, insert_comment, is_issue,
}
use git_castle.Collab.Pulls.{
  has_id, insert_pull, changed_pull, refuse, returned, update_pull, create_pull_request,
  set_pull_request_state, get_pull_request, closed_as, is_open_pull,
}
use git_castle.Collab.Reviews.{
  upsert_review, put_review, resolve_id, is_verdict, is_review, with_review,
}
use git_castle.Collab.Protection.{
  put_protection, remove_protection, set_branch_protection, delete_branch_protection, is_rule,
  with_protection,
}
use git_castle.Collab.Trace.{Op, run, IsKept, run-Keeps}
use git_castle.Collab.Consistency.Upserts.{count-put_review, count-put_protection}

-- In each repository issues, and pull requests, are numbered 1, 2, … without gaps; row ids are
-- unique and below the counter; a reviewer has one review of a pull request, and a branch one rule.
abbrev pub IsConsistent : Db → Type 0
IsConsistent s =
    IsNumbered repo_of_issue number_of_issue s.issues
    × IsNumbered repo_of_pull number_of_pull s.pulls
    × ((id : ℕ) → count (has_id id) s.pulls ≤ (if ltb id s.pull_seq then 1 else 0))
    × ((id : ℕ) (reviewer : String) → count (is_review id reviewer) s.reviews ≤ 1)
    × ((repo : ℕ) (branch : String) → count (is_rule repo branch) s.protections ≤ 1)

insert_issue-IsConsistent :
    (repo : ℕ) (author title body : String)
    → Keeps IsConsistent (insert_issue repo author title body)
unfolding insert_issue
insert_issue-IsConsistent repo author title body = record {
  at = λ s h.
      (IsNumbered-append repo_of_issue number_of_issue s.issues _ h.0 refl, h.1, h.2, h.3, h.4);
}

changed_issue-IsConsistent :
    (repo number : ℕ) (state : String) (found : Option IssueRow) (s : Db)
    → IsConsistent s
    → IsConsistent (changed_issue repo number state found s).1
unfolding changed_issue
changed_issue-IsConsistent repo number state none s h = h
changed_issue-IsConsistent repo number state (some row) s h = (
  IsNumbered-update repo_of_issue number_of_issue _ _ (λ x. refl) (λ x. refl) s.issues h.0,
  h.1,
  h.2,
  h.3,
  h.4,
)

update_issue-IsConsistent :
    (repo number : ℕ) (state : String) → Keeps IsConsistent (update_issue repo number state)
unfolding update_issue
update_issue-IsConsistent repo number state = record {
  at = λ s. changed_issue-IsConsistent repo number state (find? (is_issue repo number) s.issues) s;
}

insert_comment-IsConsistent :
    (repo : ℕ) (subject : String) (number : ℕ) (author body : String)
    → Keeps IsConsistent (insert_comment repo subject number author body)
unfolding insert_comment
insert_comment-IsConsistent repo subject number author body = record { at = λ s h. h }

count-id-append :
    (rows : List PullRow) (row : PullRow) (seq : ℕ)
    → ((id : ℕ) → count (has_id id) rows ≤ (if ltb id seq then 1 else 0))
    → row.id ≡ seq
    → (id : ℕ) → count (has_id id) (rows ++ row ∷ []) ≤ (if ltb id (suc seq) then 1 else 0)
unfolding count
count-id-append rows row seq h e id = ground (arith, h id, count-append (has_id id) rows (row ∷ []))

insert_pull-IsConsistent :
    (repo : ℕ) (author title body source target : String)
    → Keeps IsConsistent (insert_pull repo author title body source target)
unfolding insert_pull
insert_pull-IsConsistent repo author title body source target = record {
  at = λ s h. (
    h.0,
    IsNumbered-append repo_of_pull number_of_pull s.pulls _ h.1 refl,
    count-id-append s.pulls _ s.pull_seq h.2 refl,
    h.3,
    h.4,
  );
}

changed_pull-IsConsistent :
    (repo number : ℕ) (state : String) (merge : Option String) (found : Option PullRow) (s : Db)
    → IsConsistent s
    → IsConsistent (changed_pull repo number state merge found s).1
unfolding changed_pull
changed_pull-IsConsistent repo number state merge none s h = h
changed_pull-IsConsistent repo number state merge (some row) s h = (
  h.0,
  IsNumbered-update repo_of_pull number_of_pull _ _ (λ x. refl) (λ x. refl) s.pulls h.1,
  (λ id.
      let same =
        count-update (has_id id) (is_open_pull repo number) (closed_as state merge s.clock) s.pulls
          (λ x _. refl) in
      rw same (h.2 id)),
  h.3,
  h.4,
)

update_pull-IsConsistent :
    (repo number : ℕ) (state : String) (merge : Option String)
    → Keeps IsConsistent (update_pull repo number state merge)
unfolding update_pull
update_pull-IsConsistent repo number state merge = record {
  at = λ s.
      changed_pull-IsConsistent repo number state merge (find? (is_open_pull repo number) s.pulls)
        s;
}

put_review-IsConsistent :
    (id : ℕ) (reviewer verdict body : String)
    → Keeps IsConsistent (put_review id reviewer verdict body)
unfolding put_review
put_review-IsConsistent id reviewer verdict body = record {
  at = λ s h. (h.0, h.1, h.2, (λ i r. count-put_review s.reviews id _ i r (h.3 i r)), h.4);
}

put_protection-IsConsistent :
    (repo : ℕ) (protection : BranchProtection) → Keeps IsConsistent (put_protection repo protection)
unfolding put_protection
put_protection-IsConsistent repo protection = record {
  at = λ s h.
      (h.0, h.1, h.2, h.3, λ r b. count-put_protection s.protections repo protection r b (h.4 r b));
}

remove_protection-IsConsistent :
    (repo : ℕ) (branch : String) → Keeps IsConsistent (remove_protection repo branch)
unfolding remove_protection
remove_protection-IsConsistent repo branch = record {
  at = λ s h. (
    h.0,
    h.1,
    h.2,
    h.3,
    λ r b.
        omega (arith, h.4 r b, count-delete-le (is_rule r b) (is_rule repo branch) s.protections),
  );
}

IsConsistent-IsKept : IsKept IsConsistent
IsConsistent-IsKept = record {
  blind = λ s bs h. h;
  timeless = λ s n h. h;
  issue_added = insert_issue-IsConsistent;
  issue_changed = update_issue-IsConsistent;
  comment_added = insert_comment-IsConsistent;
  pull_added = insert_pull-IsConsistent;
  pull_changed = update_pull-IsConsistent;
  review_put = put_review-IsConsistent;
  rule_put = put_protection-IsConsistent;
  rule_removed = remove_protection-IsConsistent;
}

-- From well-formed tables, any run of operations, under any outages, leads to well-formed tables:
-- in each repository the issues, and the pull requests, carry the numbers 1, 2, … without gaps or
-- repetitions; the row id of a pull request occurs once and lies below the counter; a reviewer has
-- at most one review of a pull request, and a branch at most one protection rule.
pub run-IsConsistent : (ops : List Op) (s : Db) → IsConsistent s → IsConsistent (run ops s)
run-IsConsistent = run-Keeps IsConsistent-IsKept
