-- ===== src/Storage/Confined.antt =====
-- The paths of object keys stay below the root of the store.
use git_castle.Errors.{ok, err, Error}
use git_castle.Prelude.{
  sym, inr, true, inl, arith, [], Bool-cases, Bool, ◌∷◌, ◌++◌, false≢true, false, ap, ◌≢◌, ◌≡◌,
  ◌==◌, List, All, any, String,
}
use git_castle.Storage.Paths.{is_nul, enter, parent, clean, object_path, clean_from, FilePath}
use git_castle.Prelude.Text.{split, contains_text, any_char}
use git_castle.Prelude.Text.Laws.{split-free, is_char}

-- One name of a directory entry: not empty, not ".", without "..", without "/"
pub record IsName (name : String) : Type 0 where
  pub filled : (name == "") ≡ false
  pub moves : (name == ".") ≡ false
  pub climbs : contains_text name ".." ≡ false
  pub single : any_char (is_char b'/') name ≡ false

abbrev IsPiece : String → Type 0
IsPiece name =
    ((name == "") ≡ false) × ((name == ".") ≡ false) × (any_char (is_char b'/') name ≡ false)

parent-IsPiece : (p : FilePath) → All IsPiece p → All IsPiece (parent p)
parent-IsPiece [] h = tt
parent-IsPiece (name ∷ p) (first, h) = h

enter-IsPiece :
    (name : String) (p : FilePath)
    → any_char (is_char b'/') name ≡ false
    → All IsPiece p
    → All IsPiece (enter name p)
enter-IsPiece name p single h = elim (Bool-cases (name == "")) [
  | inl e ↦ rw e h
  | inr e ↦ elim (Bool-cases (name == ".")) [
    | inl m ↦ rw (e, m) h
    | inr m ↦ elim (Bool-cases (name == "..")) [
      | inl c ↦ rw (e, m, c) (parent-IsPiece p h)
      | inr c ↦ rw (e, m, c) ((e, m, single), h)
    ]
  ]
]

clean_from-IsPiece :
    (p : FilePath) (names : List String)
    → All (λ name. any_char (is_char b'/') name ≡ false) names
    → All IsPiece p
    → All IsPiece (clean_from p names)
unfolding clean_from
clean_from-IsPiece p [] single h = h
clean_from-IsPiece p (name ∷ names) (first, single) h =
    clean_from-IsPiece (enter name p) names single (enter-IsPiece name p first h)

names_of :
    (p : FilePath) → All IsPiece p → any (λ name. contains_text name "..") p ≡ false → All IsName p
unfolding any
names_of [] h none_up = tt
names_of (name ∷ p) ((filled, moves, single), h) none_up =
    let here : contains_text name ".." ≡ false = ground arith in
    let rest : any (λ name. contains_text name "..") p ≡ false = ground arith in
    (record { filled = filled; moves = moves; climbs = here; single = single }, names_of p h rest)

err≢ok : {e : Error} {p : FilePath} → err e ≢ ok p
err≢ok h = false≢true (ap (λ r. elim r as (λ _. Bool) [ err _ ↦ false | ok _ ↦ true ]) h)

ok-injective : {p q : FilePath} → ok p ≡ ok q → p ≡ q
ok-injective {p} h = ap (λ r. elim r as (λ _. FilePath) [ err _ ↦ p | ok s ↦ s ]) h

-- Whatever key a request gives, the path that LocalStore uses for it stands below the root: it is
-- the root followed by names of directory entries, none of them "." or "..", or with "/" in it.
pub object_path_under :
    (root p : FilePath) (key : String)
    → object_path root key ≡ ok p
    → (names : FilePath) × (p ≡ names ++ root) × All IsName names
unfolding object_path clean
object_path_under root p key at = elim (Bool-cases (any_char is_nul key)) [
  | inl n ↦ absurd (err≢ok (rw n at at))
  | inr n ↦ elim (Bool-cases (any (λ name. contains_text name "..") (clean key))) [
    | inl d ↦ absurd (err≢ok (rw (n, d) at at))
    | inr d ↦ (
      clean key,
      ok-injective (sym (rw (n, d) at at)),
      names_of (clean key) (clean_from-IsPiece [] (split b'/' key) (split-free b'/' key) tt) d,
    )
  ]
]
