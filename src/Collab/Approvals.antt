-- ===== src/Collab/Approvals.antt =====
-- EvaluateMerge of internal/collab/protection.go counts the approving reviews of the pull request.
use mathlib.Core.List.{map}
use git_castle.Prelude.{
  ℕ, ◌+◌, ◌≤◌, ◌≡◌, refl, ◌∙◌, String, Bool, true, false, ◌↔◌, ◌&&◌, Option, none, some, List, [],
  ◌∷◌, arith, eq_iff, ◌==◌, eqb, if◌then◌else◌, filter, find?, count, count-ext, count-filter,
  count-map, any_unique,
}
use git_castle.Prelude.Int.{ℤ, pos, ◌≤ℤ◌}
use git_castle.Errors.{ok}
use git_castle.Db.{Db}
use git_castle.Exec.{statement_up, statement_next, statement_down}
use git_castle.Collab.Types.{PullRow, Review, ReviewRow, ProtectionRow, MergeCheck}
use git_castle.Collab.Pulls.{is_pull, get_pull_request}
use git_castle.Collab.Reviews.{belongs, is_review, insert_by_time, sort_by_time, list_reviews}
use git_castle.Collab.Protection.{
  required_by, protection_in, assign, latest_from, approvals, is_rule, get_branch_protection,
  check_of, evaluate_merge,
}
use git_castle.Collab.Consistency.{IsConsistent}

-- Sorting keeps what is counted.
count-insert_by_time :
    (p : Review → Bool) (r : Review) (rs : List Review)
    → count p (insert_by_time r rs) ≡ count p (r ∷ rs)
unfolding count insert_by_time
count-insert_by_time p r [] = refl
count-insert_by_time p r (q ∷ rs) = ground (arith, count-insert_by_time p r rs)

count-sort_by_time : (p : Review → Bool) (rs : List Review) → count p (sort_by_time rs) ≡ count p rs
unfolding count sort_by_time
count-sort_by_time p [] = refl
count-sort_by_time p (r ∷ rs) =
    ground (arith, count-insert_by_time p r (sort_by_time rs), count-sort_by_time p rs)

abbrev has_key : String → String × String → Bool
has_key k b = b.0 == k

abbrev by_reviewer : String → Review → Bool
by_reviewer name r = r.reviewer == name

-- A new key is added to the map.
count-assign :
    (p : String × String → Bool) (k v : String) (m : List (String × String))
    → count (has_key k) m ≡ 0
    → count p (assign k v m) ≡ count p m + (if p (k, v) then 1 else 0)
unfolding count assign
count-assign p k v [] h = ground arith
count-assign p k v ((j, w) ∷ m) h = ground (arith, count-assign p k v m)

abbrev is_approval : Review → Bool
is_approval r = r.verdict == "approved"

abbrev is_approved : String × String → Bool
is_approved b = b.1 == "approved"

head_is_new :
    (m : List (String × String)) (r : Review) (rs : List Review)
    → count (has_key r.reviewer) m + count (by_reviewer r.reviewer) (r ∷ rs) ≤ 1
    → count (has_key r.reviewer) m ≡ 0
unfolding count
head_is_new m r rs h = ground (arith, eq_iff r.reviewer r.reviewer)

-- With one review for each reviewer, no entry of the map is overwritten.
count-latest_from :
    (m : List (String × String)) (rs : List Review)
    → ((name : String) → count (has_key name) m + count (by_reviewer name) rs ≤ 1)
    → count is_approved (latest_from m rs) ≡ count is_approved m + count is_approval rs
unfolding count latest_from
count-latest_from m [] h = ground arith
count-latest_from m (r ∷ rs) h =
    let fresh = head_is_new m r rs (h r.reviewer) in
    let rest =
      count-latest_from (assign r.reviewer r.verdict m) rs (λ name.
        ground (arith, h name, count-assign (has_key name) r.reviewer r.verdict m fresh)) in
    omega (arith, rest, count-assign is_approved r.reviewer r.verdict m fresh)

approvals_lem :
    (rs : List Review)
    → ((name : String) → count (by_reviewer name) rs ≤ 1)
    → approvals rs ≡ count is_approval rs
unfolding approvals count
approvals_lem rs unique =
    omega (arith, count-latest_from [] rs (λ name. omega (arith, unique name)))

-- The approving reviews of one pull request, by its row id.
abbrev pub approving : ℕ → List ReviewRow → ℕ
approving id rows = count (λ r. eqb id r.pull_request_id && r.review.verdict == "approved") rows

-- The approvals that the rule of a branch asks for; none without a rule.
abbrev pub required_in : Option ProtectionRow → ℤ
required_in none = pos 0
required_in (some rule) = rule.protection.required_approvals

required_in_lem :
    (rule : Option ProtectionRow) → required_by (protection_in rule) ≡ required_in rule
required_in_lem none = refl
required_in_lem (some rule) = refl

module _ (s : Db) (repo number : ℕ) (row : PullRow) (consistent : IsConsistent s)
    (found : find? (is_pull repo number) s.pulls ≡ some row) where
  pub one_pull : count (is_pull repo number) s.pulls ≤ 1
  one_pull = ground (arith, consistent.1 repo number)

  belongs_iff : (r : ReviewRow) → belongs repo number s.pulls r ≡ eqb row.id r.pull_request_id
  belongs_iff r =
      any_unique (is_pull repo number) (λ p. eqb p.id r.pull_request_id) s.pulls row one_pull found

  abbrev joined : List Review
  joined = sort_by_time (map (λ r. r.review) (filter (belongs repo number s.pulls) s.reviews))

  count-joined :
      (p : Review → Bool)
      → count p joined ≡ count (λ r. eqb row.id r.pull_request_id && p r.review) s.reviews
  count-joined p =
      count-sort_by_time p _
      ∙ count-map p (λ r. r.review) _
      ∙ count-filter (λ r. p r.review) (belongs repo number s.pulls) s.reviews
      ∙ count-ext _ _ s.reviews (λ r. ground (arith, belongs_iff r))

  one_review : (name : String) → count (by_reviewer name) joined ≤ 1
  one_review name = omega (
    arith,
    count-joined (by_reviewer name),
    consistent.3 row.id name,
    count-ext (λ r. eqb row.id r.pull_request_id && by_reviewer name r.review)
        (is_review row.id name) s.reviews (λ r. ground arith),
  )

  approvals-joined : approvals joined ≡ approving row.id s.reviews
  approvals-joined = approvals_lem joined one_review ∙ count-joined is_approval

  evaluate_merge_lem :
      s.outages ≡ []
      → evaluate_merge repo number s ≡ (
        ok (
            check_of row.pull.state
              (required_in (find? (is_rule repo row.pull.target_branch) s.protections))
              (approving row.id s.reviews)),
        s,
      )
  unfolding evaluate_merge get_pull_request get_branch_protection list_reviews
  evaluate_merge_lem up = rw (
    statement_up _ _ s up,
    found,
    statement_up _ _ s up,
    statement_up _ _ s up,
    approvals-joined,
    required_in_lem (find? (is_rule repo row.pull.target_branch) s.protections),
  )

-- The verdict of a check: the pull request is open and has the approvals that are required.
mergable_iff :
    (state : String) (required : ℤ) (current : ℕ)
    → ((check_of state required current).mergable ≡ true)
      ↔ ((state ≡ "open") × (required ≤ℤ pos current))
unfolding check_of
mergable_iff state required current = ground (arith, eq_iff state "open")

-- Without outages, on well-formed tables, EvaluateMerge of an existing pull request returns a check
-- and changes nothing. The check counts the reviews of that pull request whose verdict is
-- "approved", names the approvals that the target branch's rule requires (0 without a rule), and
-- says "mergable" exactly when the pull request is open and has at least the required approvals.
pub evaluate_merge_correct :
    (s : Db) (repo number : ℕ) (row : PullRow)
    → IsConsistent s
    → find? (is_pull repo number) s.pulls ≡ some row
    → s.outages ≡ []
    → let rule = find? (is_rule repo row.pull.target_branch) s.protections in
      (check : MergeCheck) × (evaluate_merge repo number s ≡ (ok check, s))
      × (check.current_approvals ≡ approving row.id s.reviews)
      × (check.required_approvals ≡ required_in rule)
      × ((check.mergable ≡ true)
          ↔ ((row.pull.state ≡ "open") × (required_in rule ≤ℤ pos (approving row.id s.reviews))))
unfolding check_of
evaluate_merge_correct s repo number row consistent found up = (
  _,
  evaluate_merge_lem s repo number row consistent found up,
  refl,
  refl,
  mergable_iff row.pull.state _ _,
)

-- When the pull request is read and the query of the branch's rule fails, EvaluateMerge reports no
-- error: it answers as if the branch had no rule, "mergable" for every open pull request, however
-- many approvals the stored rule requires and however few there are.
pub evaluate_merge_rule_outage :
    (s : Db) (repo number : ℕ) (row : PullRow)
    → IsConsistent s
    → find? (is_pull repo number) s.pulls ≡ some row
    → s.outages ≡ false ∷ true ∷ []
    → (check : MergeCheck) × (evaluate_merge repo number s ≡ (ok check, record s { outages = [] }))
      × (check.required_approvals ≡ pos 0)
      × ((check.mergable ≡ true) ↔ (row.pull.state ≡ "open"))
unfolding evaluate_merge get_pull_request get_branch_protection list_reviews check_of
evaluate_merge_rule_outage s repo number row consistent found up = (
  check_of row.pull.state (pos 0) (approving row.id s.reviews),
  rw (
    statement_next _ _ s (true ∷ []) up,
    found,
    statement_down _ _ (record s { outages = true ∷ [] }) [] refl,
    statement_up _ _ (record s { outages = [] }) refl,
    approvals-joined s repo number row consistent found,
  ),
  refl,
  ground (arith, mergable_iff row.pull.state (pos 0) (approving row.id s.reviews)),
)
