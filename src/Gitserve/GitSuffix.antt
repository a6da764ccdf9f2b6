-- ===== src/Gitserve/GitSuffix.antt =====
-- Clone URLs with and without ".git".
use git_castle.Prelude.{◌∙◌, arith, some, ap, ◌≢◌, [], ◌∷◌, refl, true, false, ◌≡◌, String}
use git_castle.Prelude.Text.Laws.{cut_at-append, contains_text-skip, contains_text-prefix}
use git_castle.Gitserve.Request.{is_slash}
use git_castle.Gitserve.Backend.{path_info, normalised, has_git, with_git}
use text.Mathlib.TextLemmas.{nil-append, cons-append, append_assoc}
use git_castle.Prelude.Text.{join_with, cut_at, trim_left, append, any_char, split_n, cut_prefix}
use Prim.Native.Char.{Char, code}

path_info-plain :
    (c : Char) (s : String)
    → is_slash (code c) ≡ false
    → path_info "/git" (append "/git/" (String.◌∷◌ c s)) ≡ normalised (String.◌∷◌ c s)
unfolding path_info cut_prefix trim_left
path_info-plain c s h =
    rw (cons-append, cons-append, cons-append, cons-append, cons-append, nil-append) (rw h refl)

abbrev with_rest : String → String → String → String
with_rest owner name rest = append owner (append "/" (append name rest))

has_git-suffixed :
    (owner name tail : String) → has_git (with_rest owner name (append ".git/" tail)) ≡ true
has_git-suffixed owner name tail =
    rw
      (contains_text-skip owner _ ".git/" (
        contains_text-skip "/" _ ".git/"
          (contains_text-skip name _ ".git/" (contains_text-prefix ".git/" tail))))
      refl

cut_at-slash :
    (a b : String)
    → any_char is_slash a ≡ false
    → cut_at b'/' (append a (append "/" b)) ≡ some (a, b)
cut_at-slash a b h = rw (cons-append, nil-append) (cut_at-append b'/' a _ b h refl)

split_n-rest :
    (owner name tail : String)
    → any_char is_slash owner ≡ false
    → any_char is_slash name ≡ false
    → split_n b'/' 2 (with_rest owner name (append "/" tail)) ≡ owner ∷ name ∷ tail ∷ []
unfolding split_n
split_n-rest owner name tail o n =
    rw (cut_at-slash owner (append name (append "/" tail)) o, cut_at-slash name tail n) refl

join-rest :
    (owner name tail : String)
    → with_git (with_rest owner name (append "/" tail)) (owner ∷ name ∷ tail ∷ [])
      ≡ with_rest owner name (append ".git/" tail)
unfolding join_with
join-rest owner name tail =
    ap (λ t. append owner (append "/" t))
      (append_assoc name ".git" (append "/" tail)
        ∙ ap (append name) (
            rw
              (
                cons-append, cons-append, cons-append, cons-append, nil-append, cons-append,
                nil-append, cons-append, cons-append, cons-append, cons-append, cons-append,
                nil-append,
              )
              refl))

normalised-suffix :
    (owner name tail : String)
    → any_char is_slash owner ≡ false
    → any_char is_slash name ≡ false
    → has_git (with_rest owner name (append "/" tail)) ≡ false
    → normalised (with_rest owner name (append "/" tail))
      ≡ normalised (with_rest owner name (append ".git/" tail))
unfolding normalised
normalised-suffix owner name tail o n bare =
    rw (bare, has_git-suffixed owner name tail, split_n-rest owner name tail o n)
      (join-rest owner name tail)

-- Handler gives git http-backend the same path for a clone URL without ".git" after the repository
-- name as for the one with it: for an owner and a name without "/", an owner that is not empty, and
-- a path without ".git" that has the suffix put in.
pub git_suffix_optional :
    (owner name tail : String)
    → owner ≢ ""
    → any_char is_slash owner ≡ false
    → any_char is_slash name ≡ false
    → has_git (with_rest owner name (append "/" tail)) ≡ false
    → path_info "/git" (append "/git/" (with_rest owner name (append "/" tail)))
      ≡ path_info "/git" (append "/git/" (with_rest owner name (append ".git/" tail)))
unfolding any_char
git_suffix_optional String.[] name tail filled o n bare = absurd (filled refl)
git_suffix_optional (String.◌∷◌ c owner) name tail filled o n bare =
    let first : is_slash (code c) ≡ false = ground arith in
    let same = normalised-suffix (String.◌∷◌ c owner) name tail o n bare in
    rw
      (
        cons-append c owner,
        cons-append c owner,
        path_info-plain c _ first,
        path_info-plain c _ first,
      )
      (rw (cons-append c owner, cons-append c owner) at same)
