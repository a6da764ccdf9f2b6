-- ===== src/Httpapi/Content.antt =====
-- internal/httpapi/content.go, with DiskContent. Git's answers depend on the path of the repository.
use git_castle.Errors.{err, ok, Result}
use git_castle.Httpapi.Request.{Request}
use git_castle.Prelude.{String}
use git_castle.Gitdata.Repo.{list_tree, list_refs, blob, Git}
use git_castle.Httpapi.Reply.{
  write_error, tree_body, refs_body, commits_body, commit_body, blob_body, write_json, try, Route,
}
use git_castle.Gitdata.Commits.{list_commits, get_commit}
use git_castle.Prelude.Int.{pos}
use git_castle.Repos.Service.{get}

-- openRepo, with DiskContent.Repo
abbrev pub open_repo : Request → (String → Git) → (Git → Route) → Route
open_repo r git rest = try (get r.owner r.name) λ repository. rest (git repository.path)

abbrev pub replied : {A : Type 0} → Result A → (A → Route) → Route
replied (ok a) f = f a
replied (err e) f = write_error e

-- listRefs
abbrev pub list_refs_route : (String → Git) → Request → Route
list_refs_route git r =
    open_repo r git
      λ repo. replied (list_refs repo) λ found. write_json 200 (refs_body found.0 found.1)

-- listTreeRoute
abbrev pub list_tree_route : (String → Git) → Request → String → String → Route
list_tree_route git r rev path =
    open_repo r git
      λ repo. replied (list_tree repo rev path) λ entries. write_json 200 (tree_body entries)

-- getBlobRoute; the body is none for a file that is too large
abbrev pub get_blob_route : (String → Git) → Request → String → String → Route
get_blob_route git r rev path =
    open_repo r git
      λ repo. replied (blob repo rev path) λ content. write_json 200 (blob_body content)

-- listCommitsRoute
abbrev pub list_commits_route : (String → Git) → Request → String → Route
list_commits_route git r rev = open_repo r git λ repo.
    replied (list_commits repo rev "" (pos 50)) λ commits. write_json 200 (commits_body commits)

-- getCommitRoute
abbrev pub get_commit_route : (String → Git) → Request → String → Route
get_commit_route git r hash =
    open_repo r git
      λ repo. replied (get_commit repo hash) λ found. write_json 200 (commit_body found.0 found.1)
