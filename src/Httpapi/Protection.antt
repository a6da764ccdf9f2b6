-- ===== src/Httpapi/Protection.antt =====
-- The branch protection routes of internal/httpapi/collab.go.
use git_castle.Collab.Types.{BranchProtection}
use git_castle.Collab.Protection.{
  get_branch_protection, set_branch_protection, delete_branch_protection,
}
use git_castle.Httpapi.Reply.{Route, write_json, protection_body, status_body, try}
use git_castle.Httpapi.Request.{Request, resolve_repo, decode}
use git_castle.Prelude.{Bool, Option}
use git_castle.Prelude.Int.{ℤ}

-- getProtectionRoute
abbrev pub get_protection_route : Request → Route
get_protection_route r = resolve_repo r λ repository.
    try (get_branch_protection repository.id r.branch)
      λ protection. write_json 200 (protection_body protection)

-- putProtectionRoute; the input is required_approvals and allow_force_push
abbrev pub put_protection_route : Request → Option (ℤ × Bool) → Route
put_protection_route r input = resolve_repo r λ repository. decode input λ i.
    let protection : BranchProtection = record {
      branch = r.branch;
      required_approvals = i.0;
      allow_force_push = i.1;
    } in
    try (set_branch_protection repository.id protection)
      λ _. write_json 200 (protection_body protection)

-- deleteProtectionRoute
abbrev pub delete_protection_route : Request → Route
delete_protection_route r = resolve_repo r λ repository.
    try (delete_branch_protection repository.id r.branch)
      λ _. write_json 200 (status_body "deleted")
