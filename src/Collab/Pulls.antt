-- ===== src/Collab/Pulls.antt =====
-- internal/collab/pull_requests.go: pull requests and their lifecycle.
use git_castle.Prelude.{
  ℕ, suc, ◌+◌, String, Bool, ◌&&◌, ◌||◌, not, true, Option, none, some, List, [], ◌∷◌, ◌++◌, ◌==◌,
  eqb, ltb, if◌then◌else◌, filter, find?, update,
}
use mathlib.Core.List.{map}
use git_castle.Errors.{Result, ok, err, not_found, invalid_state, not_mergeable}
use git_castle.Exec.{Exec, pure, raise, ◌>>=◌, statement}
use git_castle.Collab.Types.{PullRequest, PullRow}
use git_castle.Collab.Sequence.{max_number}
use git_castle.Collab.Issues.{repo_of_pull, number_of_pull}

abbrev pub is_pull : ℕ → ℕ → PullRow → Bool
is_pull repo number row = eqb row.repository_id repo && eqb row.pull.number number

unfoldable pub insert_pull : ℕ → String → String → String → String → String → Exec PullRequest
insert_pull repo author title body source target s =
    let pull : PullRequest = record {
      number = max_number repo_of_pull number_of_pull repo s.pulls + 1;
      title = title;
      body = body;
      author = author;
      state = "open";
      source_branch = source;
      target_branch = target;
      merge_commit = none;
      created_at = s.clock;
      updated_at = s.clock;
    } in
    let row : PullRow = record { id = s.pull_seq; repository_id = repo; pull = pull } in
    (ok pull, record s { pulls = s.pulls ++ row ∷ []; pull_seq = suc s.pull_seq })

abbrev pub has_id : ℕ → PullRow → Bool
has_id id row = eqb row.id id

-- CreatePullRequest
unfoldable pub create_pull_request :
    ℕ → String → String → String → String → String → Exec PullRequest
create_pull_request repo author title body source target =
    statement "insert pull request" (insert_pull repo author title body source target)

-- ORDER BY number DESC
insert_desc : PullRequest → List PullRequest → List PullRequest
insert_desc pr [] = pr ∷ []
insert_desc pr (p ∷ rest) =
    if ltb p.number pr.number then pr ∷ p ∷ rest else p ∷ insert_desc pr rest

sort_desc : List PullRequest → List PullRequest
sort_desc [] = []
sort_desc (p ∷ rest) = insert_desc p (sort_desc rest)

abbrev pub listed_in : String → String → Bool
listed_in state wanted =
    if wanted == "open" || wanted == "merged" || wanted == "closed" then state == wanted else true

-- ListPullRequests
pub list_pull_requests : ℕ → String → Exec (List PullRequest)
unfolding insert_desc sort_desc
list_pull_requests repo state = statement "list pull requests" λ s.
    let rows =
      filter (λ row. eqb row.repository_id repo && listed_in row.pull.state state) s.pulls in
    (ok (sort_desc (map (λ row. row.pull) rows)), s)

abbrev pub scanned : Option PullRow → Result PullRequest
scanned none = err not_found
scanned (some row) = ok row.pull

-- GetPullRequest, with the error translation of scanPullRequest
unfoldable pub get_pull_request : ℕ → ℕ → Exec PullRequest
get_pull_request repo number =
    statement "scan pull request" λ s. (scanned (find? (is_pull repo number) s.pulls), s)

abbrev pub is_open_pull : ℕ → ℕ → PullRow → Bool
is_open_pull repo number row = is_pull repo number row && row.pull.state == "open"

abbrev pub closed_as : String → Option String → ℕ → PullRow → PullRow
closed_as state merge now row = record row {
  pull = record (row.pull) { state = state; merge_commit = merge; updated_at = now };
}

-- The UPDATE touches an open pull request only; it returns the row that it changed, if any.
unfoldable pub changed_pull :
    ℕ → ℕ → String → Option String → Option PullRow → Exec (Option PullRequest)
changed_pull repo number state merge none s = (ok none, s)
changed_pull repo number state merge (some row) s = (
  ok (some (closed_as state merge s.clock row).pull),
  record s { pulls = update (is_open_pull repo number) (closed_as state merge s.clock) s.pulls },
)

unfoldable pub update_pull : ℕ → ℕ → String → Option String → Exec (Option PullRequest)
update_pull repo number state merge s =
    changed_pull repo number state merge (find? (is_open_pull repo number) s.pulls) s

-- No row was changed: the pull request is missing, or it is not open.
abbrev pub refusal : Result PullRequest → Result PullRequest
refusal (ok _) = err not_mergeable
refusal (err _) = err not_found

unfoldable pub refuse : ℕ → ℕ → Exec PullRequest
refuse repo number s = let (found, t) = get_pull_request repo number s in (refusal found, t)

abbrev pub returned : ℕ → ℕ → Option PullRequest → Exec PullRequest
returned repo number (some pr) = pure pr
returned repo number none = refuse repo number

-- SetPullRequestState; an empty commit hash is stored as NULL.
unfoldable pub set_pull_request_state : ℕ → ℕ → String → String → Exec PullRequest
set_pull_request_state repo number state merge_commit =
    if not (state == "merged" || state == "closed") then raise invalid_state else do
      let merge : Option String = if merge_commit == "" then none else some merge_commit
      changed ← statement "update pull request state" (update_pull repo number state merge)
      returned repo number changed
