-- ===== src/Collab/Issues.antt =====
-- internal/collab/issues.go, and NextNumber of internal/collab/collab.go.
use git_castle.Prelude.{
  ℕ, suc, ◌+◌, String, Bool, ◌&&◌, ◌||◌, not, true, Option, none, some, List, [], ◌∷◌, ◌++◌, ◌==◌,
  eqb, leb, ltb, if◌then◌else◌, filter, find?, update,
}
use mathlib.Core.List.{map}
use git_castle.Errors.{ok, err, plain, not_found, invalid_state}
use git_castle.Exec.{Exec, raise, statement}
use git_castle.Collab.Types.{Issue, Comment, IssueRow, CommentRow, PullRow}
use git_castle.Collab.Sequence.{max_number}

abbrev pub repo_of_issue : IssueRow → ℕ
repo_of_issue row = row.repository_id

abbrev pub number_of_issue : IssueRow → ℕ
number_of_issue row = row.issue.number

abbrev pub repo_of_pull : PullRow → ℕ
repo_of_pull row = row.repository_id

abbrev pub number_of_pull : PullRow → ℕ
number_of_pull row = row.pull.number

abbrev pub issue_in : ℕ → IssueRow → Bool
issue_in repo row = eqb row.repository_id repo

abbrev pub is_issue : ℕ → ℕ → IssueRow → Bool
is_issue repo number row = eqb row.repository_id repo && eqb row.issue.number number

-- NextNumber
pub next_number : ℕ → String → Exec ℕ
next_number repo table =
    if not (table == "issues" || table == "pull_requests")
    then raise (plain "unknown number sequence table")
    else statement "allocate number" λ s. (
      ok (
          if table == "issues"
          then max_number repo_of_issue number_of_issue repo s.issues + 1
          else max_number repo_of_pull number_of_pull repo s.pulls + 1),
      s,
    )

unfoldable pub insert_issue : ℕ → String → String → String → Exec Issue
insert_issue repo author title body s =
    let issue : Issue = record {
      number = max_number repo_of_issue number_of_issue repo s.issues + 1;
      title = title;
      body = body;
      author = author;
      state = "open";
      created_at = s.clock;
      updated_at = s.clock;
    } in
    let row : IssueRow = record { repository_id = repo; issue = issue } in
    (ok issue, record s { issues = s.issues ++ row ∷ [] })

-- CreateIssue
unfoldable pub create_issue : ℕ → String → String → String → Exec Issue
create_issue repo author title body = statement "insert issue" (insert_issue repo author title body)

-- ORDER BY number DESC
insert_desc : Issue → List Issue → List Issue
insert_desc issue [] = issue ∷ []
insert_desc issue (i ∷ rest) =
    if ltb i.number issue.number then issue ∷ i ∷ rest else i ∷ insert_desc issue rest

sort_desc : List Issue → List Issue
sort_desc [] = []
sort_desc (i ∷ rest) = insert_desc i (sort_desc rest)

-- The filter on `state` is added only for a known state; any other text lists all issues.
abbrev pub listed_in : String → String → Bool
listed_in state wanted = if wanted == "open" || wanted == "closed" then state == wanted else true

-- ListIssues
pub list_issues : ℕ → String → Exec (List Issue)
unfolding insert_desc sort_desc
list_issues repo state = statement "list issues" λ s.
    let rows = filter (λ row. issue_in repo row && listed_in row.issue.state state) s.issues in
    (ok (sort_desc (map (λ row. row.issue) rows)), s)

-- GetIssue
pub get_issue : ℕ → ℕ → Exec Issue
get_issue repo number = statement "get issue" λ s. elim (find? (is_issue repo number) s.issues) [
  | none ↦ (err not_found, s)
  | some row ↦ (ok row.issue, s)
]

abbrev pub with_state : String → ℕ → IssueRow → IssueRow
with_state state now row = record row {
  issue = record (row.issue) { state = state; updated_at = now };
}

unfoldable pub changed_issue : ℕ → ℕ → String → Option IssueRow → Exec Issue
changed_issue repo number state none s = (err not_found, s)
changed_issue repo number state (some row) s = (
  ok (with_state state s.clock row).issue,
  record s { issues = update (is_issue repo number) (with_state state s.clock) s.issues },
)

-- UPDATE … RETURNING
unfoldable pub update_issue : ℕ → ℕ → String → Exec Issue
update_issue repo number state s =
    changed_issue repo number state (find? (is_issue repo number) s.issues) s

-- SetIssueState
unfoldable pub set_issue_state : ℕ → ℕ → String → Exec Issue
unfolding update_issue
set_issue_state repo number state =
    if not (state == "open" || state == "closed")
    then raise invalid_state
    else statement "update issue state" (update_issue repo number state)

unfoldable pub insert_comment : ℕ → String → ℕ → String → String → Exec Comment
insert_comment repo subject_type subject_number author body s =
    let comment : Comment = record {
      id = s.comment_seq;
      author = author;
      body = body;
      created_at = s.clock;
    } in
    let row : CommentRow = record {
      repository_id = repo;
      subject_type = subject_type;
      subject_number = subject_number;
      comment = comment;
    } in
    (ok comment, record s { comments = s.comments ++ row ∷ []; comment_seq = suc s.comment_seq })

-- AddComment
unfoldable pub add_comment : ℕ → String → ℕ → String → String → Exec Comment
add_comment repo subject_type subject_number author body =
    if not (subject_type == "issue" || subject_type == "pull_request")
    then raise invalid_state
    else statement "insert comment" (insert_comment repo subject_type subject_number author body)

abbrev pub is_about : ℕ → String → ℕ → CommentRow → Bool
is_about repo subject_type number row =
    eqb row.repository_id repo && row.subject_type == subject_type && eqb row.subject_number number

abbrev comes_before : Comment → Comment → Bool
comes_before a b = ltb a.created_at b.created_at || eqb a.created_at b.created_at && leb a.id b.id

insert_comment_in : Comment → List Comment → List Comment
insert_comment_in c [] = c ∷ []
insert_comment_in c (d ∷ rest) =
    if comes_before c d then c ∷ d ∷ rest else d ∷ insert_comment_in c rest

sort_comments : List Comment → List Comment
sort_comments [] = []
sort_comments (c ∷ rest) = insert_comment_in c (sort_comments rest)

-- ListComments, in ORDER BY created_at ASC, id ASC
pub list_comments : ℕ → String → ℕ → Exec (List Comment)
unfolding sort_comments insert_comment_in
list_comments repo subject_type number = statement "list comments" λ s. (
  ok (
      sort_comments
        (map (λ row. row.comment) (filter (is_about repo subject_type number) s.comments))),
  s,
)
