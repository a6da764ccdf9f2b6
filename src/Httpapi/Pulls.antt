-- ===== src/Httpapi/Pulls.antt =====
-- Pull request and review routes of internal/httpapi/collab.go.
use Prim.Native.String.{◌++◌}
use git_castle.Prelude.{none, [], ◌∷◌, not, if◌then◌else◌, some, ℕ, Option, Bool, String}
use git_castle.Httpapi.Request.{parse_number, decode, resolve_repo, Request}
use git_castle.Errors.{error_text, err, ok, Result}
use git_castle.Httpapi.Reply.{
  blocked, reviews_body, review_body, pulls_body, pull_with_check, pull_body, error_body, after,
  write_json, merged, git_merge, try, Route,
}
use git_castle.Repos.Types.{Repository}
use git_castle.Collab.Protection.{evaluate_merge}
use git_castle.Collab.Pulls.{
  set_pull_request_state, list_pull_requests, get_pull_request, create_pull_request,
}
use git_castle.Collab.Reviews.{upsert_review, list_reviews}

pub record PullInput : Type 0 where
  pub title : String
  pub body : String
  pub source_branch : String
  pub target_branch : String

-- createPullRequestRoute
abbrev pub create_pull_request_route : Request → Option PullInput → Route
create_pull_request_route r input = resolve_repo r λ repository. decode input λ i.
    try
      (create_pull_request repository.id r.user.username i.title i.body i.source_branch
        i.target_branch)
      λ pr. write_json 201 (pull_body pr)

-- listPullRequestsRoute
abbrev pub list_pull_requests_route : Request → Route
list_pull_requests_route r = resolve_repo r λ repository.
    try (list_pull_requests repository.id r.state) λ prs. write_json 200 (pulls_body prs)

-- getPullRequestRoute
abbrev pub get_pull_request_route : Request → Route
get_pull_request_route r = resolve_repo r λ repository. parse_number r λ number.
    try (get_pull_request repository.id number) λ pr.
      try (evaluate_merge repository.id number) λ check. write_json 200 (pull_with_check pr check)

-- What the code does not implement here: `git merge` in a scratch clone. It returns the hash of
-- the merge commit or an error.
abbrev pub Merger : Type 0
Merger = (owner name : String) (number : ℕ) (source target user : String) → Result String

-- The state transition and the notification at the end of the handler.
unfoldable pub finish_merge : Bool → Repository → ℕ → String → String → Route
finish_merge automation repository number user commit =
    try (set_pull_request_state repository.id number "merged" commit) λ pr s.
      let event =
        merged repository.id repository.owner repository.name number user commit pr.source_branch
          pr.target_branch in
      (
        record {
          status = 200;
          body = pull_body pr;
          effects = if automation then event ∷ [] else [];
        },
        s,
      )

abbrev merge_reply : Bool → Repository → ℕ → String → Result String → Route
merge_reply automation repository number user (ok hash) =
    finish_merge automation repository number user hash
merge_reply automation repository number user (err e) =
    write_json 409 (error_body ("git merge failed: " ++ error_text e))

abbrev merge_with : Option Merger → Bool → Repository → ℕ → String → Route
merge_with none automation repository number user =
    finish_merge automation repository number user ""
merge_with (some merger) automation repository number user =
    try (get_pull_request repository.id number) λ pr s.
      let call =
        git_merge repository.owner repository.name number pr.source_branch pr.target_branch user in
      after (call ∷ []) (
        merge_reply automation repository number user
          (merger repository.owner repository.name number pr.source_branch pr.target_branch user) s)

-- mergePullRequestRoute, with or without a merger and a subscriber of merge events
unfoldable pub merge_pull_request_route : Option Merger → Bool → Request → Route
merge_pull_request_route merger automation r = resolve_repo r λ repository. parse_number r λ number.
    try (evaluate_merge repository.id number) λ check.
      if not check.mergable
      then write_json 422 (blocked check.blockers)
      else merge_with merger automation repository number r.user.username

-- putReviewRoute; the input is verdict and body
abbrev pub put_review_route : Request → Option (String × String) → Route
put_review_route r input = resolve_repo r λ repository. parse_number r λ number. decode input λ i.
    try (upsert_review repository.id number r.user.username i.0 i.1)
      λ review. write_json 201 (review_body review)

-- listReviewsRoute
abbrev pub list_reviews_route : Request → Route
list_reviews_route r = resolve_repo r λ repository. parse_number r λ number.
    try (list_reviews repository.id number) λ reviews. write_json 200 (reviews_body reviews)
