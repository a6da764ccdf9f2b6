-- ===== src/Prelude/Text.antt =====
-- The functions of Go's package strings that the program uses, over texts of characters. A Go
-- string that is no UTF-8 has no counterpart here.
pub mod Laws
use Prim.Native.Nat.{ℕ, suc, ◌+◌}
use Prim.Native.Char.{Char, code}
use Prim.Native.String
use Prim.Native.String.{String, [], ◌∷◌}
use mathlib.Core.Bool.{Bool, true, false, ◌&&◌, ◌||◌}
use mathlib.Core.Option.{Option, none, some}
use mathlib.Core.List.{List, [], ◌∷◌}
use git_castle.Prelude.Tests.{eqb, ltb, leb, if◌then◌else◌}
use git_castle.Prelude.{not, zero, filter}

-- s + t
abbrev pub append : String → String → String
append s t = String.◌++◌ s t

abbrev pub same_char : Char → Char → Bool
same_char a b = eqb (code a) (code b)

-- The bytes of a character in UTF-8.
abbrev pub char_bytes : Char → ℕ
char_bytes c =
    if ltb (code c) 128
    then 1
    else if ltb (code c) 2048
    then 2
    else if ltb (code c) 65536
    then 3
    else 4

-- len(s)
unfoldable pub byte_length : String → ℕ
byte_length [] = 0
byte_length (c ∷ s) = char_bytes c + byte_length s

-- len([]rune(s))
unfoldable pub rune_count : String → ℕ
rune_count [] = 0
rune_count (c ∷ s) = suc (rune_count s)

unfoldable pub all_chars : (ℕ → Bool) → String → Bool
all_chars p [] = true
all_chars p (c ∷ s) = p (code c) && all_chars p s

unfoldable pub any_char : (ℕ → Bool) → String → Bool
any_char p [] = false
any_char p (c ∷ s) = p (code c) || any_char p s

-- strings.CutPrefix
unfoldable pub cut_prefix : String → String → Option String
cut_prefix [] s = some s
cut_prefix (p ∷ ps) [] = none
cut_prefix (p ∷ ps) (c ∷ s) = let rest = cut_prefix ps s in if same_char p c then rest else none

abbrev pub is_some : {A : Type 0} → Option A → Bool
is_some none = false
is_some (some _) = true

abbrev pub or_else : {A : Type 0} → Option A → A → A
or_else none a = a
or_else (some x) a = x

abbrev pub has_prefix : String → String → Bool
has_prefix s p = is_some (cut_prefix p s)

abbrev pub trim_prefix : String → String → String
trim_prefix s p = or_else (cut_prefix p s) s

abbrev pub is_blank : String → Bool
is_blank [] = true
is_blank (_ ∷ _) = false

unfoldable pub same_text : String → String → Bool
same_text [] [] = true
same_text (a ∷ s) (b ∷ t) = same_char a b && same_text s t
same_text _ _ = false

unfoldable pub has_suffix : String → String → Bool
unfolding same_text
has_suffix [] suffix = same_text [] suffix
has_suffix (c ∷ s) suffix = same_text (c ∷ s) suffix || has_suffix s suffix

unfoldable pub trim_suffix : String → String → String
unfolding same_text
trim_suffix [] suffix = []
trim_suffix (c ∷ s) suffix =
    let rest : String = c ∷ trim_suffix s suffix in if same_text (c ∷ s) suffix then [] else rest

-- strings.TrimLeft, TrimRight and Trim, the cut set as a test on code points
unfoldable pub trim_left : (ℕ → Bool) → String → String
trim_left p [] = []
trim_left p (c ∷ s) = let rest = trim_left p s in if p (code c) then rest else c ∷ s

abbrev pub end_with : (ℕ → Bool) → Char → String → String
end_with p c [] = if p (code c) then [] else c ∷ []
end_with p c (d ∷ r) = c ∷ d ∷ r

unfoldable pub trim_right : (ℕ → Bool) → String → String
trim_right p [] = []
trim_right p (c ∷ s) = end_with p c (trim_right p s)

unfoldable pub trim : (ℕ → Bool) → String → String
unfolding trim_left trim_right
trim p s = trim_right p (trim_left p s)

abbrev pub onto_first : Char → List String → List String
onto_first c [] = (c ∷ []) ∷ []
onto_first c (part ∷ parts) = (c ∷ part) ∷ parts

-- strings.Split at one separator
unfoldable pub split : ℕ → String → List String
split sep [] = [] ∷ []
split sep (c ∷ s) =
    let parts = split sep s in if eqb (code c) sep then [] ∷ parts else onto_first c parts

-- strings.Cut at one separator: what stands before it, or the whole text.
unfoldable pub before : ℕ → String → String
before sep [] = []
before sep (c ∷ s) = let rest : String = c ∷ before sep s in if eqb (code c) sep then [] else rest

unfoldable pub contains_text : String → String → Bool
unfolding cut_prefix
contains_text [] p = has_prefix [] p
contains_text (c ∷ s) p = has_prefix (c ∷ s) p || contains_text s p

-- The white space of unicode.IsSpace.
abbrev pub is_space : ℕ → Bool
is_space c =
    eqb c 32
    || leb 9 c && leb c 13
    || eqb c 133
    || eqb c 160
    || eqb c 0x1680
    || leb 0x2000 c && leb c 0x200a
    || eqb c 0x2028
    || eqb c 0x2029
    || eqb c 0x202f
    || eqb c 0x205f
    || eqb c 0x3000

-- strings.Split by a class of characters, and strings.Fields
unfoldable pub split_by : (ℕ → Bool) → String → List String
split_by p [] = [] ∷ []
split_by p (c ∷ s) =
    let parts = split_by p s in if p (code c) then [] ∷ parts else onto_first c parts

unfoldable pub fields : String → List String
unfolding split_by
fields s = filter (λ part. not (is_blank part)) (split_by is_space s)

-- strings.Cut at one separator
abbrev pub cut_onto : Char → Option (String × String) → Option (String × String)
cut_onto c none = none
cut_onto c (some (a, b)) = some (c ∷ a, b)

pub cut_at : ℕ → String → Option (String × String)
cut_at sep [] = none
cut_at sep (c ∷ s) =
    let rest = cut_onto c (cut_at sep s) in if eqb (code c) sep then some ([], s) else rest

-- strings.SplitN, with the number of cuts
abbrev pub cut_piece : String → Option (String × String) → (String → List String) → List String
cut_piece s none f = s ∷ []
cut_piece s (some (a, b)) f = a ∷ f b

unfoldable pub split_n : ℕ → ℕ → String → List String
split_n sep zero s = s ∷ []
split_n sep (suc n) s = cut_piece s (cut_at sep s) (split_n sep n)

-- strings.Join
unfoldable pub join_with : String → List String → String
join_with sep [] = []
join_with sep (part ∷ []) = part
join_with sep (part ∷ next ∷ rest) = append part (append sep (join_with sep (next ∷ rest)))
