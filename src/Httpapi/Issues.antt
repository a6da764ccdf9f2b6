-- ===== src/Httpapi/Issues.antt =====
-- Issue and comment routes of internal/httpapi/collab.go.
use git_castle.Prelude.{Option, String}
use git_castle.Httpapi.Request.{parse_number, decode, resolve_repo, Request}
use git_castle.Httpapi.Reply.{
  issues_body, issue_body, comments_body, comment_body, write_json, try, Route,
}
use git_castle.Collab.Issues.{
  set_issue_state, list_issues, list_comments, get_issue, create_issue, add_comment,
}

-- createIssueRoute; the input is title and body
abbrev pub create_issue_route : Request → Option (String × String) → Route
create_issue_route r input = resolve_repo r λ repository. decode input λ i.
    try (create_issue repository.id r.user.username i.0 i.1)
      λ issue. write_json 201 (issue_body issue)

-- listIssuesRoute
abbrev pub list_issues_route : Request → Route
list_issues_route r = resolve_repo r λ repository.
    try (list_issues repository.id r.state) λ issues. write_json 200 (issues_body issues)

-- getIssueRoute
abbrev pub get_issue_route : Request → Route
get_issue_route r = resolve_repo r λ repository.
    parse_number r
      λ number. try (get_issue repository.id number) λ issue. write_json 200 (issue_body issue)

-- patchIssueRoute; the input is the state
abbrev pub patch_issue_route : Request → Option String → Route
patch_issue_route r input = resolve_repo r λ repository. parse_number r λ number.
    decode input λ state.
      try (set_issue_state repository.id number state) λ issue. write_json 200 (issue_body issue)

-- addComment
abbrev pub add_comment_route : String → Request → Option String → Route
add_comment_route subject_type r input = resolve_repo r λ repository. parse_number r λ number.
    decode input λ body.
      try (add_comment repository.id subject_type number r.user.username body)
        λ comment. write_json 201 (comment_body comment)

-- listComments
abbrev pub list_comments_route : String → Request → Route
list_comments_route subject_type r = resolve_repo r λ repository. parse_number r λ number.
    try (list_comments repository.id subject_type number)
      λ comments. write_json 200 (comments_body comments)
