-- ===== src/Mergesvc/Kept.antt =====
-- What a merge leaves alone unless it can be pushed.
use git_castle.Mergesvc.Service.{
  merged_in, after_git, merge_message, then_git, merge_args, scratch, merge_pr, committer_env,
  Merging, GitCall, MergeService, Machine,
}
use git_castle.Prelude.{refl, inr, inl, ◌⊎◌, [], ◌==◌, ℕ, ◌∷◌, ◌≡◌, false, Bool, String, List}
use git_castle.Gitdata.Repo.{fails_with, Ran, printed}
use git_castle.Prelude.Text.{append}
use git_castle.Repos.Service.{repository_path}

-- The first argument is the command.
abbrev pub is_push : List String → Bool
is_push [] = false
is_push (command ∷ _) = command == "push"

module _ {W : Type 0} (m : Machine W) (s : MergeService) (P : W → Type 0)
    (kept : (call : GitCall) (w : W) → is_push call.args ≡ false → P w → P (m.git call w).1)
    (cleared : (work : String) (w : W) → P w → P (m.remove_all work w)) where
  abbrev call_of : String → List String → GitCall
  call_of directory args = record {
    directory = directory;
    args = args;
    env = committer_env s.committer;
  }

  -- A command that is no push, and what follows it
  then_git-Kept :
      {Q : Type 0} (context directory : String) (args : List String) (f : String → Merging W)
      (w : W)
      → is_push args ≡ false
      → P w
      → ((text : String) (u : W)
          → m.git (call_of directory args) w ≡ (printed text, u)
          → P u
          → P (f text u).1 ⊎ Q)
      → P (then_git m s context directory args f w).1 ⊎ Q
  then_git-Kept {Q} context directory args f w quiet h next =
      go (m.git (call_of directory args) w) refl (kept (call_of directory args) w quiet h)
    where
      go :
          (out : Ran × W)
          → m.git (call_of directory args) w ≡ out
          → P out.1
          → P (after_git context out f).1 ⊎ Q
      go (printed text, u) e p = next text u e p
      go (fails_with text, u) e p = inl p

  -- Whatever the commands of git do, as long as only a push touches what `P` says, such as the
  -- branches of the bare repository, MergePR keeps it, or its merge command has worked in the
  -- scratch clone; and the removal of the scratch clone is the last thing it does in any case.
  pub merge_pr-Kept :
      (owner name : String) (number : ℕ) (source target user : String) (w : W)
      → P w
      → let (r, t) = merge_pr m s owner name number source target user w in
        ((u : W) × (t ≡ m.remove_all (scratch s number) u))
        × (P t
            ⊎ ((before after : W) × (text : String) × (m.git
                    (call_of
                      (scratch s number)
                      (merge_args (merge_message number owner source user) source))
                    before
                  ≡ (printed text, after))))
  unfolding merge_pr
  merge_pr-Kept owner name number source target user w h = ((_, refl), ends final)
    where
      Merged : Type 0
      Merged =
          (before after : W) × (text : String) × (m.git
              (call_of (scratch s number)
                (merge_args (merge_message number owner source user) source))
              before
            ≡ (printed text, after))

      final :
          P
            (then_git m s
              (append "clone target branch " target)
              "."
              ("clone"
                ∷ "--quiet"
                ∷ "--branch"
                ∷ target
                ∷ repository_path s.root owner name
                ∷ scratch s number
                ∷ [])
              (λ _.
                then_git m s
                  (append "fetch source branch " source)
                  (scratch s number)
                  ("fetch" ∷ "--quiet" ∷ "origin" ∷ source ∷ [])
                  λ _. merged_in m s owner name number source target user)
              w).1
          ⊎ Merged
      final = then_git-Kept _ "." _ _ w refl h λ text u e p.
          then_git-Kept _ (scratch s number) _ _ u refl p λ text u e p.
            then_git-Kept _ (scratch s number) _ _ u refl p
              λ text after e p. inr (u, after, text, e)

      ends : {u : W} → P u ⊎ Merged → P (m.remove_all (scratch s number) u) ⊎ Merged
      ends {u} (inl p) = inl (cleared (scratch s number) u p)
      ends (inr merged) = inr merged
