-- ===== src/Gitdata/Repo.antt =====
-- internal/gitdata/gitdata.go: references, directories and files. Git is outside of this repository:
-- what a command prints, or how it fails, is a parameter.
use git_castle.Errors.{revision_not_found, ok, failed, err, Error, Result}
use git_castle.Prelude.{
  ◌||◌, eqb, ◌==◌, none, any, ◌∷◌, some, if◌then◌else◌, [], Bool, ℕ, String, Option, List,
}
use git_castle.Prelude.Int.{pos, ltb_ℤ, ℤ}
use git_castle.Prelude.Text.{
  split_n, split, has_prefix, cut_at, contains_text, trim_prefix, join_with, is_space, fields, trim,
  append,
}
use git_castle.Prelude.Number.{atoi, is_digit}
use Prim.Native.Char.{code}

pub data Ran : Type 0 where
  printed : String → Ran
  -- the exit status and what git wrote to its standard error
  fails_with : String → Ran

-- Git's answers to the arguments of a command in a repository
abbrev pub Git : Type 0
Git = List String → Ran

-- The text of the error that run and runBytes return
abbrev pub run_error : List String → String → String
run_error args text = append "git " (append (join_with " " args) (append ": " text))

abbrev pub contains_any : String → List String → Bool
contains_any text parts = any (contains_text text) parts

-- Errors with one of these texts mean that there is no such object.
abbrev pub error_of : List String → List String → String → Error
error_of parts args text =
    if contains_any (run_error args text) parts
    then revision_not_found
    else failed (append "git " (join_with " " args))

-- `output, err := r.run(…)`, and the rest of the function where there is no error
abbrev pub with_output :
    {A : Type 0} → List String → List String → Ran → (String → Result A) → Result A
with_output parts args (printed text) f = f text
with_output parts args (fails_with text) f = err (error_of parts args text)

pub record Ref : Type 0 where
  pub name : String
  pub hash : String
  pub is_tag : Bool

abbrev pub ref_of : List String → Option Ref
ref_of (ref ∷ hash ∷ _ ∷ _) = some (record {
  name = trim_prefix (trim_prefix ref "refs/heads/") "refs/tags/";
  hash = hash;
  is_tag = has_prefix ref "refs/tags/";
})
ref_of _ = none

-- A line is skipped if it is empty or has less than three parts.
abbrev pub ref_in : String → Option Ref
ref_in line = if line == "" then none else ref_of (split_n 0 2 line)

abbrev pub on_some : {A : Type 0} → Option A → List A → List A
on_some none rest = rest
on_some (some a) rest = a ∷ rest

pub refs_in : List String → List Ref
refs_in [] = []
refs_in (line ∷ lines) = on_some (ref_in line) (refs_in lines)

abbrev pub head_of : Ran → String
head_of (printed text) = trim is_space text
head_of (fails_with text) = ""

abbrev refs_args : List String
refs_args =
    "for-each-ref" ∷ "--format=%(refname)%00%(objectname)%00%(objecttype)" ∷ "refs/heads"
    ∷ "refs/tags" ∷ []

-- ListRefs
abbrev pub list_refs : Git → Result (List Ref × String)
list_refs git = with_output [] refs_args (git refs_args) λ output. ok (
  refs_in (split b'\n' (trim is_space output)),
  head_of (git ("symbolic-ref" ∷ "--short" ∷ "HEAD" ∷ [])),
)

pub record TreeEntry : Type 0 where
  pub mode : String
  pub kind : String
  pub hash : String
  pub path : String

abbrev pub entry_of : String → List String → Option TreeEntry
entry_of name (mode ∷ kind ∷ hash ∷ _) =
    some (record { mode = mode; kind = kind; hash = hash; path = name })
entry_of name _ = none

abbrev pub entry_cut : Option (String × String) → Option TreeEntry
entry_cut none = none
entry_cut (some (meta, name)) = entry_of name (fields meta)

abbrev pub entry_in : String → Option TreeEntry
entry_in text = if text == "" then none else entry_cut (cut_at b'\t' text)

pub entries_in : List String → List TreeEntry
entries_in [] = []
entries_in (text ∷ texts) = on_some (entry_in text) (entries_in texts)

abbrev pub no_object : List String
no_object = "Not a valid object name" ∷ "does not exist" ∷ []

-- ListTree
abbrev pub list_tree : Git → String → String → Result (List TreeEntry)
list_tree git rev directory =
    let spec = if directory == "" then rev else append rev (append ":" directory) in
    let args = "ls-tree" ∷ "-z" ∷ spec ∷ [] in
    with_output no_object args (git args) λ output. ok (entries_in (split 0 output))

unfoldable leading_digits : String → String
leading_digits String.[] = ""
leading_digits (String.◌∷◌ c rest) =
    let more : String = String.◌∷◌ c (leading_digits rest) in if is_digit (code c) then more else ""

-- fmt.Sscanf with "%d": a sign and digits, and whatever comes after them
pub scan_int : String → Option ℤ
unfolding leading_digits
scan_int String.[] = none
scan_int (String.◌∷◌ c rest) =
    if eqb (code c) b'+' || eqb (code c) b'-'
    then atoi (String.◌∷◌ c (leading_digits rest))
    else atoi (leading_digits (String.◌∷◌ c rest))

abbrev pub max_size : ℕ
max_size = 1048576

-- The contents, or none if they are too large to display
abbrev pub contents : Git → String → Option ℤ → Result (Option String)
contents git spec none = err (failed "parse blob size")
contents git spec (some size) =
    let args = "cat-file" ∷ "blob" ∷ spec ∷ [] in
    if ltb_ℤ (pos max_size) size
    then ok none
    else with_output [] args (git args) λ bytes. ok (some bytes)

-- Blob
abbrev pub blob : Git → String → String → Result (Option String)
blob git rev path =
    let spec = append rev (append ":" path) in
    let args = "cat-file" ∷ "-s" ∷ spec ∷ [] in
    with_output no_object args (git args)
      λ output. contents git spec (scan_int (trim is_space output))
