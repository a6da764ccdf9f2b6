-- ===== src/Collab/Consistency/Upserts.antt =====
-- The upserts of internal/collab leave one row for each key.
use git_castle.Prelude.{
  ℕ, ◌≤◌, ◌≡◌, String, false, List, [], ◌∷◌, ◌++◌, arith, if◌then◌else◌, any, count, update,
  count-append, count-update, count-any, eq_iff, subst, Bool-cases, inl, inr,
}
use git_castle.Collab.Types.{Review, ReviewRow, BranchProtection, ProtectionRow}
use git_castle.Collab.Reviews.{is_review, with_review}
use git_castle.Collab.Protection.{is_rule, with_protection}

-- The upsert of a review: one row for each pull request and reviewer.
module _ (rows : List ReviewRow) (pull_id : ℕ) (review : Review) (id : ℕ) (reviewer : String)
    (h : count (is_review id reviewer) rows ≤ 1) where
  count-review-update :
      count
        (is_review id reviewer)
        (update (is_review pull_id review.reviewer) (with_review review) rows)
      ≤ 1
  count-review-update =
      let same =
        count-update (is_review id reviewer) (is_review pull_id review.reviewer)
          (with_review review) rows
          (λ x e. ground (arith, eq_iff x.review.reviewer review.reviewer)) in
      omega (arith, same)

  count-review-absent :
      any (is_review pull_id review.reviewer) rows ≡ false
      → pull_id ≡ id
      → review.reviewer ≡ reviewer
      → count (is_review id reviewer) rows ≡ 0
  count-review-absent new e e' = count-any (is_review id reviewer) rows (
      subst (λ r. any (is_review id r) rows ≡ false) e'
        (subst (λ i. any (is_review i review.reviewer) rows ≡ false) e new))

  pub count-put_review :
      count (is_review id reviewer) (
        if any (is_review pull_id review.reviewer) rows
        then update (is_review pull_id review.reviewer) (with_review review) rows
        else rows ++ record { pull_request_id = pull_id; review = review } ∷ [])
      ≤ 1
  unfolding count
  count-put_review = elim (Bool-cases (any (is_review pull_id review.reviewer) rows)) [
    | inl old ↦ rw old count-review-update
    | inr new ↦ rw new (
        ground (
          arith,
          count-append (is_review id reviewer) rows
              (record { pull_request_id = pull_id; review = review } ∷ []),
          count-review-absent new,
          eq_iff review.reviewer reviewer,
        ))
  ]

-- The upsert of a rule: one row for each repository and branch.
module _ (rows : List ProtectionRow) (repo' : ℕ) (protection : BranchProtection) (repo : ℕ)
    (branch : String) (h : count (is_rule repo branch) rows ≤ 1) where
  count-rule-update :
      count
        (is_rule repo branch)
        (update (is_rule repo' protection.branch) (with_protection protection) rows)
      ≤ 1
  count-rule-update =
      let same =
        count-update (is_rule repo branch) (is_rule repo' protection.branch)
          (with_protection protection) rows
          (λ x e. ground (arith, eq_iff x.protection.branch protection.branch)) in
      omega (arith, same)

  count-rule-absent :
      any (is_rule repo' protection.branch) rows ≡ false
      → repo' ≡ repo
      → protection.branch ≡ branch
      → count (is_rule repo branch) rows ≡ 0
  count-rule-absent new e e' = count-any (is_rule repo branch) rows (
      subst (λ b. any (is_rule repo b) rows ≡ false) e'
        (subst (λ r. any (is_rule r protection.branch) rows ≡ false) e new))

  pub count-put_protection :
      count (is_rule repo branch) (
        if any (is_rule repo' protection.branch) rows
        then update (is_rule repo' protection.branch) (with_protection protection) rows
        else rows ++ record { repository_id = repo'; protection = protection } ∷ [])
      ≤ 1
  unfolding count
  count-put_protection = elim (Bool-cases (any (is_rule repo' protection.branch) rows)) [
    | inl old ↦ rw old count-rule-update
    | inr new ↦ rw new (
        ground (
          arith,
          count-append (is_rule repo branch) rows
              (record { repository_id = repo'; protection = protection } ∷ []),
          count-rule-absent new,
          eq_iff protection.branch branch,
        ))
  ]
