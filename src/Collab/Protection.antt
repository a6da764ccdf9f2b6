-- ===== src/Collab/Protection.antt =====
-- internal/collab/protection.go: branch protection and the merge check.
use git_castle.Prelude.{
  ℕ, String, Bool, true, false, ◌&&◌, Option, none, some, List, [], ◌∷◌, ◌++◌, ◌==◌, eqb,
  if◌then◌else◌, find?, any, count, update, delete,
}
use git_castle.Prelude.Int.{ℤ, pos, ltb_ℤ}
use git_castle.Errors.{Result, ok, err, not_found, plain}
use git_castle.Exec.{Exec, pure, raise, attempt, ◌>>=◌, statement}
use git_castle.Collab.Types.{
  Review, BranchProtection, ProtectionRow, Blocker, not_open, requires, MergeCheck,
}
use git_castle.Collab.Pulls.{get_pull_request}
use git_castle.Collab.Reviews.{list_reviews}

abbrev pub is_rule : ℕ → String → ProtectionRow → Bool
is_rule repo branch row = eqb row.repository_id repo && row.protection.branch == branch

abbrev pub with_protection : BranchProtection → ProtectionRow → ProtectionRow
with_protection protection row = record row { protection = protection }

-- INSERT … ON CONFLICT (repository_id, branch) DO UPDATE
unfoldable pub put_protection : ℕ → BranchProtection → Exec (Unit {0})
put_protection repo protection s =
    let row : ProtectionRow = record { repository_id = repo; protection = protection } in
    (
      ok tt,
      record s {
        protections =
            if any (is_rule repo protection.branch) s.protections
            then update (is_rule repo protection.branch) (with_protection protection) s.protections
            else s.protections ++ row ∷ [];
      },
    )

-- SetBranchProtection
unfoldable pub set_branch_protection : ℕ → BranchProtection → Exec (Unit {0})
set_branch_protection repo protection =
    if protection.branch == ""
    then raise (plain "branch name is required")
    else if ltb_ℤ protection.required_approvals (pos 0)
    then raise (plain "required_approvals must be >= 0")
    else statement "set branch protection" (put_protection repo protection)

abbrev pub protection_in : Option ProtectionRow → Result BranchProtection
protection_in none = err not_found
protection_in (some row) = ok row.protection

-- GetBranchProtection
unfoldable pub get_branch_protection : ℕ → String → Exec BranchProtection
get_branch_protection repo branch =
    statement "get branch protection"
      λ s. (protection_in (find? (is_rule repo branch) s.protections), s)

unfoldable pub remove_protection : ℕ → String → Exec (Unit {0})
remove_protection repo branch s = (
  if any (is_rule repo branch) s.protections then ok tt else err not_found,
  record s { protections = delete (is_rule repo branch) s.protections },
)

-- DeleteBranchProtection; no affected row means that there was no rule.
unfoldable pub delete_branch_protection : ℕ → String → Exec (Unit {0})
delete_branch_protection repo branch =
    statement "delete branch protection" (remove_protection repo branch)

-- The map from reviewer to verdict.
unfoldable pub assign : String → String → List (String × String) → List (String × String)
assign k v [] = (k, v) ∷ []
assign k v ((j, w) ∷ m) = if j == k then (k, v) ∷ m else (j, w) ∷ assign k v m

unfoldable pub latest_from : List (String × String) → List Review → List (String × String)
latest_from m [] = m
latest_from m (r ∷ rest) = latest_from (assign r.reviewer r.verdict m) rest

unfoldable pub approvals : List Review → ℕ
unfolding assign latest_from
approvals reviews = count (λ b. b.1 == "approved") (latest_from [] reviews)

-- Any error of the rule's query counts as "no rule".
abbrev pub required_by : Result BranchProtection → ℤ
required_by (ok protection) = protection.required_approvals
required_by (err _) = pos 0

abbrev pub blockers_of : String → ℤ → ℕ → List Blocker
blockers_of state required current =
    (if state == "open" then [] else not_open ∷ [])
    ++ (if ltb_ℤ (pos current) required then requires required current ∷ [] else [])

abbrev is_empty : List Blocker → Bool
is_empty [] = true
is_empty (_ ∷ _) = false

unfoldable pub check_of : String → ℤ → ℕ → MergeCheck
check_of state required current = record {
  mergable = is_empty (blockers_of state required current);
  blockers = blockers_of state required current;
  required_approvals = required;
  current_approvals = current;
}

-- EvaluateMerge
unfoldable pub evaluate_merge : ℕ → ℕ → Exec MergeCheck
evaluate_merge repo number = do
  pr ← get_pull_request repo number
  rule ← attempt (get_branch_protection repo pr.target_branch)
  reviews ← list_reviews repo number
  pure (check_of pr.state (required_by rule) (approvals reviews))
