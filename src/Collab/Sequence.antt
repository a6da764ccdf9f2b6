-- ===== src/Collab/Sequence.antt =====
-- The numbers of issues and of pull requests: `COALESCE(MAX(number), 0) + 1` within one
-- repository, as internal/collab/{collab,issues,pull_requests}.go allocate them.
use git_castle.Prelude.{
  ℕ, ◌+◌, max, ◌≡◌, refl, Bool, ◌&&◌, List, [], ◌∷◌, ◌++◌, arith, eqb, leb, if◌then◌else◌, count,
  count-append, count-update, update,
}

module _ {R : Type 0} (repo_of number_of : R → ℕ) where
  -- SELECT COALESCE(MAX(number), 0) FROM … WHERE repository_id = repo
  unfoldable pub max_number : ℕ → List R → ℕ
  max_number repo [] = 0
  max_number repo (x ∷ xs) =
      let rest = max_number repo xs in if eqb (repo_of x) repo then max (number_of x) rest else rest

  abbrev pub numbered : ℕ → ℕ → R → Bool
  numbered repo number x = eqb (repo_of x) repo && eqb (number_of x) number

  -- The numbers of each repository are 1, 2, …, up to the largest, each of them once.
  abbrev pub IsNumbered : List R → Type 0
  IsNumbered rows =
      (repo number : ℕ)
      → count (numbered repo number) rows
        ≡ (if leb 1 number && leb number (max_number repo rows) then 1 else 0)

  pub max_number-append :
      (repo : ℕ) (xs : List R) (x : R)
      → max_number repo (xs ++ x ∷ []) ≡ (
          if eqb (repo_of x) repo
          then max (number_of x) (max_number repo xs)
          else max_number repo xs)
  unfolding max_number
  max_number-append repo [] x = ground arith
  max_number-append repo (y ∷ xs) x = ground (arith, max_number-append repo xs x)

  pub IsNumbered-nil : IsNumbered []
  unfolding max_number count
  IsNumbered-nil repo number = ground arith

  -- A row with the next number of its repository.
  pub IsNumbered-append :
      (rows : List R) (x : R)
      → IsNumbered rows
      → number_of x ≡ max_number (repo_of x) rows + 1
      → IsNumbered (rows ++ x ∷ [])
  unfolding count
  IsNumbered-append rows x h e repo number = ground (
    arith,
    h repo number,
    count-append (numbered repo number) rows (x ∷ []),
    max_number-append repo rows x,
  )

  module _ (q : R → Bool) (f : R → R) (same_repo : (x : R) → repo_of (f x) ≡ repo_of x)
      (same_number : (x : R) → number_of (f x) ≡ number_of x) where
    max_number-update :
        (repo : ℕ) (xs : List R) → max_number repo (update q f xs) ≡ max_number repo xs
    unfolding max_number update
    max_number-update repo [] = refl
    max_number-update repo (x ∷ xs) =
        ground (arith, max_number-update repo xs, same_repo x, same_number x)

    -- A change that keeps repository and number.
    pub IsNumbered-update : (rows : List R) → IsNumbered rows → IsNumbered (update q f rows)
    IsNumbered-update rows h repo number = ground (
      arith,
      h repo number,
      max_number-update repo rows,
      count-update (numbered repo number) q f rows
          (λ x _. ground (arith, same_repo x, same_number x)),
    )
