-- ===== src/Gitdata/Commits.antt =====
-- internal/gitdata/history.go: commits and their patches.
use git_castle.Gitdata.Repo.{fails_with, with_output, printed, on_some, Git}
use git_castle.Prelude.{
  zero, none, ◌/◌, ltb, ◌||◌, ◌==◌, ◌%◌, some, if◌then◌else◌, eqb, [], ◌∷◌, suc, Option, Bool, ℕ,
  String, List,
}
use git_castle.Prelude.Int.{negsuc, pos, ℤ}
use git_castle.Errors.{revision_not_found, ok, plain, err, Result}
use git_castle.Prelude.Text.{
  split_n, trim_prefix, is_space, fields, cut_at, trim_right, trim, trim_left, append, split,
}

pub record Commit : Type 0 where
  pub hash : String
  pub author : String
  pub email : String
  pub date : String
  pub message : String
  pub parents : List String

abbrev pub is_newline : ℕ → Bool
is_newline c = eqb c b'\n'

abbrev pub commit_of : List String → Option Commit
commit_of (hash ∷ author ∷ email ∷ date ∷ parents ∷ message ∷ _) = some (record {
  hash = hash;
  author = author;
  email = email;
  date = date;
  message = trim_right is_newline message;
  parents = fields parents;
})
commit_of _ = none

-- One record of the output; it is skipped if it is blank or has less than six parts.
abbrev pub commit_in : String → Option Commit
commit_in text =
    let line = trim_left is_newline text in
    if trim is_space line == "" then none else commit_of (split_n 0 5 line)

unfoldable pub commits_in : List String → List Commit
commits_in [] = []
commits_in (text ∷ texts) = on_some (commit_in text) (commits_in texts)

-- parseCommits
unfoldable pub parse_commits : String → List Commit
unfolding commits_in
parse_commits output = commits_in (split 0x1e output)

unfoldable digit : ℕ → List String → String
digit n [] = ""
digit zero (text ∷ texts) = text
digit (suc n) (text ∷ texts) = digit n texts

abbrev digit_texts : List String
digit_texts = "0" ∷ "1" ∷ "2" ∷ "3" ∷ "4" ∷ "5" ∷ "6" ∷ "7" ∷ "8" ∷ "9" ∷ []

unfoldable itoa_from : ℕ → ℕ → String → String
unfolding digit
itoa_from zero n text = text
itoa_from (suc fuel) n text =
    let longer = append (digit (n % 10) digit_texts) text in
    let more = itoa_from fuel (n / 10) longer in if ltb n 10 then longer else more

-- strconv.Itoa; a number has no more digits than its value and one.
pub itoa : ℕ → String
unfolding itoa_from
itoa n = itoa_from (suc n) n ""

abbrev pub commit_format : String
commit_format = "--format=%H%x00%an%x00%ae%x00%aI%x00%P%x00%B%x1e"

abbrev pub commit_limit : ℤ → ℕ
commit_limit (pos n) = if eqb n 0 || ltb 200 n then 50 else n
commit_limit (negsuc n) = 50

-- ListCommits; the revision is not among the arguments.
abbrev pub list_commits : Git → String → String → ℤ → Result (List Commit)
list_commits git rev path limit =
    let args =
      "log"
      ∷ commit_format
      ∷ "-n"
      ∷ itoa (commit_limit limit)
      ∷ (if path == "" then [] else "--" ∷ path ∷ []) in
    with_output ("unknown revision" ∷ "bad revision" ∷ "does not have any commits" ∷ []) args
      (git args) λ output. ok (parse_commits output)

abbrev pub first_commit : String → String → List Commit → Result (Commit × String)
first_commit hash patch [] = err (plain (append "could not parse commit " hash))
first_commit hash patch (commit ∷ _) = ok (commit, patch)

abbrev pub shown : String → Option (String × String) → Result (Commit × String)
shown hash none = err (plain (append "unexpected show output for " hash))
shown hash (some (header, rest)) =
    first_commit hash (trim_prefix rest "\n") (parse_commits (append header "\u{1e}"))

-- GetCommit
abbrev pub get_commit : Git → String → Result (Commit × String)
get_commit git hash =
    let args = "show" ∷ commit_format ∷ "--patch" ∷ "--no-color" ∷ hash ∷ [] in
    with_output ("unknown revision" ∷ "bad revision" ∷ []) args (git args)
      λ output. shown hash (cut_at 0x1e output)

-- ResolveRev
abbrev pub resolve_rev : Git → String → Result String
resolve_rev git rev = elim (git ("rev-parse" ∷ "--verify" ∷ append rev "^{commit}" ∷ [])) [
  | printed hash ↦ ok (trim is_space hash)
  | fails_with text ↦ err revision_not_found
]
