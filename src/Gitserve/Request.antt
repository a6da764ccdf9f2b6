-- ===== src/Gitserve/Request.antt =====
-- Requests of internal/gitserve/auth.go and what AuthHandler reads off them.
use git_castle.Prelude.{if◌then◌else◌, [], ◌∷◌, ◌&&◌, ◌==◌, eqb, ℕ, Option, List, Bool, String}
use git_castle.Prelude.Text.{trim_suffix, trim, split}

pub record GitRequest : Type 0 where
  pub method : String
  pub path : String
  -- the query parameter "service", empty if there is none
  pub service : String
  -- r.BasicAuth()
  pub basic_auth : Option (String × String)

pub data Access : Type 0 where
  read write : Access

-- wantsWrite
unfoldable pub wants_write : GitRequest → Bool
wants_write r = r.method == "POST" && r.service == "git-receive-pack"

abbrev pub is_slash : ℕ → Bool
is_slash c = eqb c b'/'

abbrev pub owner_repo_of : List String → String × String
owner_repo_of [] = ("", "")
owner_repo_of (_ ∷ []) = ("", "")
owner_repo_of (_ ∷ _ ∷ []) = ("", "")
owner_repo_of (first ∷ owner ∷ repo ∷ _) =
    if first == "" then ("", "") else (owner, trim_suffix repo ".git")

-- parseOwnerRepo
unfoldable pub parse_owner_repo : String → String × String
parse_owner_repo path = owner_repo_of (split b'/' (trim is_slash path))
