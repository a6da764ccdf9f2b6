-- ===== src/Mergesvc/Service.antt =====
-- Service of internal/mergesvc/service.go. Git and the file system are outside of this repository:
-- their state is a type of its own, which a command and the removal of a directory change.
use git_castle.Errors.{ok, failed, err, Result}
use git_castle.Gitdata.Repo.{fails_with, printed, Ran}
use git_castle.Prelude.{◌||◌, ◌==◌, eqb, [], ◌∷◌, if◌then◌else◌, Bool, ℕ, String, List}
use git_castle.Prelude.Text.{trim_right, append}
use git_castle.Repos.Service.{repository_path}
use git_castle.Gitdata.Commits.{itoa}

-- One call of git: the directory, the arguments and what is added to the environment
pub record GitCall : Type 0 where
  pub directory : String
  pub args : List String
  pub env : List String

pub record Machine (W : Type 0) : Type 0 where
  pub git : GitCall → W → Ran × W
  pub remove_all : String → W → W

pub record Committer : Type 0 where
  pub name : String
  pub email : String

pub record MergeService : Type 0 where
  pub root : String
  pub has_events : Bool
  pub committer : Committer
  -- os.TempDir(), and os.Getpid() in decimal digits
  pub temp_dir : String
  pub pid : String

pub record Event : Type 0 where
  pub owner : String
  pub name : String
  pub pull_number : ℕ
  pub merge_commit : String
  pub target_branch : String
  pub source_branch : String
  pub merged_by : String

abbrev pub or_default : String → String → String
or_default value fallback = if value == "" then fallback else value

-- The environment of Service.git
abbrev pub committer_env : Committer → List String
committer_env c =
    let name = or_default c.name "GitCastle" in
    let email = or_default c.email "noreply@gitcastle.local" in
    append "GIT_AUTHOR_NAME=" name
    ∷ append "GIT_AUTHOR_EMAIL=" email
    ∷ append "GIT_COMMITTER_NAME=" name
    ∷ append "GIT_COMMITTER_EMAIL=" email
    ∷ []

abbrev pub is_blank_end : ℕ → Bool
is_blank_end c = eqb c b'\n' || eqb c b' ' || eqb c b'\t'

-- The scratch clone
pub scratch : MergeService → ℕ → String
scratch s number =
    append s.temp_dir (append "/gitcastle-merge-" (append s.pid (append "-" (itoa number))))

abbrev pub merge_message : ℕ → String → String → String → String
merge_message number owner source user = append "Merge pull request #" (
    append (itoa number)
      (append " from " (append owner (append "/" (append source (append "\n\nMerged by " user))))))

abbrev pub push_args : String → List String
push_args target = "push" ∷ "--quiet" ∷ "origin" ∷ target ∷ []

abbrev pub merge_args : String → String → List String
merge_args message source =
    "merge" ∷ "--no-ff" ∷ "--quiet" ∷ "-m" ∷ message ∷ append "origin/" source ∷ []

abbrev pub Merging : Type 0 → Type 0
Merging W = W → Result (String × List Event) × W

-- `out, err := s.git(…)`, and what follows where there is no error
abbrev pub after_git :
    {W : Type 0} → String → Ran × W → (String → Merging W) → Result (String × List Event) × W
after_git context (printed text, w) f = f text w
after_git context (fails_with text, w) f = (err (failed context), w)

module _ {W : Type 0} (m : Machine W) (s : MergeService) where
  abbrev pub then_git : String → String → List String → (String → Merging W) → Merging W
  then_git context directory args f w =
      let call : GitCall = record {
        directory = directory;
        args = args;
        env = committer_env s.committer;
      } in
      after_git context (m.git call w) f

  abbrev pub removed_after :
      String → Result (String × List Event) × W → Result (String × List Event) × W
  removed_after work (r, w) = (r, m.remove_all work w)

  abbrev pub event_of : String → String → ℕ → String → String → String → String → List Event
  event_of owner name number source target user hash =
      if s.has_events
      then record {
        owner = owner;
        name = name;
        pull_number = number;
        merge_commit = hash;
        target_branch = target;
        source_branch = source;
        merged_by = user;
      }
        ∷ []
      else []

  -- The push and what follows it
  abbrev pub pushed : String → String → ℕ → String → String → String → Merging W
  pushed owner name number source target user =
      let work = scratch s number in
      then_git (append "push merged " target) work (push_args target) λ _.
        then_git "git [rev-parse HEAD]" work ("rev-parse" ∷ "HEAD" ∷ []) λ output w.
          let hash = trim_right is_blank_end output in
          (ok (hash, event_of owner name number source target user hash), w)

  abbrev pub merged_in : String → String → ℕ → String → String → String → Merging W
  merged_in owner name number source target user =
      then_git (append "merge " (append source (append " into " (append target " (conflict?)"))))
        (scratch s number) (merge_args (merge_message number owner source user) source)
        λ _. pushed owner name number source target user

  -- MergePR; the deferred removal of the scratch clone comes last.
  unfoldable pub merge_pr : String → String → ℕ → String → String → String → Merging W
  merge_pr owner name number source target user w =
      let work = scratch s number in
      let bare = repository_path s.root owner name in
      removed_after work (
        then_git (append "clone target branch " target) "."
          ("clone" ∷ "--quiet" ∷ "--branch" ∷ target ∷ bare ∷ work ∷ [])
          (λ _.
            then_git (append "fetch source branch " source) work
              ("fetch" ∷ "--quiet" ∷ "origin" ∷ source ∷ [])
              λ _. merged_in owner name number source target user)
          w)
