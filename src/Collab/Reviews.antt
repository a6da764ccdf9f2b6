-- ===== src/Collab/Reviews.antt =====
-- internal/collab/pull_requests.go: reviews.
use git_castle.Prelude.{
  ℕ, String, Bool, ◌&&◌, ◌||◌, not, Option, none, some, List, [], ◌∷◌, ◌++◌, ◌==◌, eqb, leb,
  if◌then◌else◌, filter, find?, any, update,
}
use mathlib.Core.List.{map}
use git_castle.Errors.{Result, ok, err, not_found, invalid_state, not_mergeable}
use git_castle.Exec.{Exec, raise, ◌>>=◌, statement}
use git_castle.Collab.Types.{PullRow, Review, ReviewRow}
use git_castle.Collab.Pulls.{is_pull, get_pull_request}

abbrev pub is_verdict : String → Bool
is_verdict verdict =
    verdict == "approved" || verdict == "changes_requested" || verdict == "commented"

abbrev pub is_review : ℕ → String → ReviewRow → Bool
is_review pull_id reviewer row = eqb row.pull_request_id pull_id && row.review.reviewer == reviewer

abbrev pub with_review : Review → ReviewRow → ReviewRow
with_review review row = record row { review = review }

-- INSERT … ON CONFLICT (pull_request_id, reviewer) DO UPDATE
unfoldable pub put_review : ℕ → String → String → String → Exec Review
put_review pull_id reviewer verdict body s =
    let review : Review = record {
      reviewer = reviewer;
      verdict = verdict;
      body = body;
      created_at = s.clock;
    } in
    let row : ReviewRow = record { pull_request_id = pull_id; review = review } in
    (
      ok review,
      record s {
        reviews =
            if any (is_review pull_id reviewer) s.reviews
            then update (is_review pull_id reviewer) (with_review review) s.reviews
            else s.reviews ++ row ∷ [];
      },
    )

abbrev resolved : Option PullRow → Result ℕ
resolved none = err not_found
resolved (some row) = ok row.id

unfoldable pub resolve_id : ℕ → ℕ → Exec ℕ
resolve_id repo number s = (resolved (find? (is_pull repo number) s.pulls), s)

-- UpsertReview
unfoldable pub upsert_review : ℕ → ℕ → String → String → String → Exec Review
upsert_review repo number reviewer verdict body =
    if not (is_verdict verdict) then raise invalid_state else do
      pr ← get_pull_request repo number
      if pr.state == "merged" || pr.state == "closed" then raise not_mergeable else do
        row_id ← statement "resolve pull request id" (resolve_id repo number)
        statement "upsert review" (put_review row_id reviewer verdict body)

-- ORDER BY created_at ASC
unfoldable pub insert_by_time : Review → List Review → List Review
insert_by_time r [] = r ∷ []
insert_by_time r (q ∷ rest) =
    if leb r.created_at q.created_at then r ∷ q ∷ rest else q ∷ insert_by_time r rest

unfoldable pub sort_by_time : List Review → List Review
sort_by_time [] = []
sort_by_time (r ∷ rest) = insert_by_time r (sort_by_time rest)

-- JOIN pull_requests p ON p.id = r.pull_request_id WHERE p.repository_id = … AND p.number = …
abbrev pub belongs : ℕ → ℕ → List PullRow → ReviewRow → Bool
belongs repo number pulls row =
    any (λ p. eqb p.id row.pull_request_id && is_pull repo number p) pulls

-- ListReviews
unfoldable pub list_reviews : ℕ → ℕ → Exec (List Review)
unfolding insert_by_time sort_by_time
list_reviews repo number = statement "list reviews" λ s. (
  ok (sort_by_time (map (λ row. row.review) (filter (belongs repo number s.pulls) s.reviews))),
  s,
)
