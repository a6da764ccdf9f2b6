-- ===== src/Prelude/Text/Laws.antt =====
-- Cutting, searching and splitting a text that was put together.
use Prim.Native.Char.{Char, code}
use Prim.Native.Nat.{ℕ}
use Prim.Native.String.{String, [], ◌∷◌}
use mathlib.Core.Bool.{Bool, true, false}
use mathlib.Core.Option.{some}
use mathlib.Core.Path.{◌≡◌, refl, ap}
use native.Mathlib.Omega.{arith}
use text.Mathlib.TextLemmas.{nil-append, cons-append}
use git_castle.Prelude.Tests.{eqb}
use git_castle.Prelude.Text.{
  same_text, rune_count, has_suffix, onto_first, split, append, any_char, cut_at, contains_text,
  cut_prefix, is_some,
}
use git_castle.Prelude.{◌<◌, ◌+◌, false≢true, inr, inl, Bool-cases, All, List}

abbrev pub is_char : ℕ → ℕ → Bool
is_char sep c = eqb c sep

pub cut_at-append :
    (sep : ℕ) (a : String) (c : Char) (b : String)
    → any_char (is_char sep) a ≡ false
    → eqb (code c) sep ≡ true
    → cut_at sep (append a (c ∷ b)) ≡ some (a, b)
unfolding cut_at any_char
cut_at-append sep [] c b h e = rw (nil-append, e) refl
cut_at-append sep (d ∷ a) c b h e =
    rw (cons-append d a (c ∷ b)) (ground (arith, cut_at-append sep a c b))

pub contains_text-skip :
    (a b p : String) → contains_text b p ≡ true → contains_text (append a b) p ≡ true
unfolding contains_text
contains_text-skip [] b p h = rw nil-append h
contains_text-skip (c ∷ a) b p h =
    rw (cons-append c a b) (ground (arith, contains_text-skip a b p h))

pub cut_prefix-append : (p s : String) → cut_prefix p (append p s) ≡ some s
unfolding cut_prefix
cut_prefix-append [] s = rw nil-append refl
cut_prefix-append (c ∷ p) s = rw (cons-append c p s) (ground (arith, cut_prefix-append p s))

pub contains_text-prefix : (p s : String) → contains_text (append p s) p ≡ true
unfolding contains_text
contains_text-prefix p s = go (append p s) (ap is_some (cut_prefix-append p s))
  where
    go : (t : String) → is_some (cut_prefix p t) ≡ true → contains_text t p ≡ true
    go [] h = h
    go (c ∷ t) h = ground (arith, h)

onto_first-free :
    (sep : ℕ) (c : Char)
    → eqb (code c) sep ≡ false
    → (parts : List String) → All (λ part. any_char (is_char sep) part ≡ false) parts
    → All (λ part. any_char (is_char sep) part ≡ false) (onto_first c parts)
unfolding any_char
onto_first-free sep c h List.[] free = (rw h refl, tt)
onto_first-free sep c h (List.◌∷◌ part parts) (first, rest) = (rw h first, rest)

pub split-free :
    (sep : ℕ) (s : String) → All (λ part. any_char (is_char sep) part ≡ false) (split sep s)
unfolding split any_char
split-free sep [] = (refl, tt)
split-free sep (c ∷ s) = elim (Bool-cases (eqb (code c) sep)) [
  | inl h ↦ rw h (refl, split-free sep s)
  | inr h ↦ rw h (onto_first-free sep c h (split sep s) (split-free sep s))
]

-- The first part of a text up to a separator, when that part has none in it
pub split-append :
    (sep : ℕ) (a : String) (c : Char) (b : String)
    → any_char (is_char sep) a ≡ false
    → eqb (code c) sep ≡ true
    → split sep (append a (c ∷ b)) ≡ List.◌∷◌ a (split sep b)
unfolding split any_char
split-append sep [] c b h e = rw (nil-append, e) refl
split-append sep (d ∷ a) c b h e =
    let here : eqb (code d) sep ≡ false = ground arith in
    let rest : any_char (is_char sep) a ≡ false = ground arith in
    rw (cons-append d a (c ∷ b), here, split-append sep a c b rest e) refl

pub split-whole :
    (sep : ℕ) (a : String) → any_char (is_char sep) a ≡ false → split sep a ≡ List.◌∷◌ a List.[]
unfolding split any_char
split-whole sep [] h = refl
split-whole sep (d ∷ a) h =
    let here : eqb (code d) sep ≡ false = ground arith in
    let rest : any_char (is_char sep) a ≡ false = ground arith in
    rw (here, split-whole sep a rest) refl

rune_count-append : (a b : String) → rune_count (append a b) ≡ rune_count a + rune_count b
unfolding rune_count
rune_count-append [] b = rw nil-append (omega arith)
rune_count-append (c ∷ a) b = rw (cons-append c a b) (omega (arith, rune_count-append a b))

same_text-rune_count : (s t : String) → same_text s t ≡ true → rune_count s ≡ rune_count t
unfolding same_text rune_count
same_text-rune_count [] [] h = refl
same_text-rune_count [] (d ∷ t) h = absurd (false≢true h)
same_text-rune_count (c ∷ s) [] h = absurd (false≢true h)
same_text-rune_count (c ∷ s) (d ∷ t) h = ground (arith, same_text-rune_count s t)

-- What is put before a text does not make it end in a text that is shorter than it.
pub has_suffix-longer :
    (a b suffix : String)
    → rune_count suffix < rune_count b
    → has_suffix b suffix ≡ false
    → has_suffix (append a b) suffix ≡ false
unfolding has_suffix rune_count
has_suffix-longer [] b suffix le h = rw nil-append h
has_suffix-longer (c ∷ a) b suffix le h =
    let more = rune_count-append a b in
    let same = same_text-rune_count (c ∷ append a b) suffix in
    rw (cons-append c a b) (ground (arith, has_suffix-longer a b suffix le h))
