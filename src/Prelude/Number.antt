-- ===== src/Prelude/Number.antt =====
-- strconv: decimal numbers, within the range of int64.
use Prim.Native.Char.{code}
use Prim.Native.Nat.{ℕ, zero, suc, ◌+◌, ◌-◌, ◌*◌, ◌^◌}
use Prim.Native.String.{String}
use mathlib.Core.Bool.{◌&&◌, Bool}
use mathlib.Core.Option.{Option, none, some}
use text.Mathlib.Text.{◌==◌}
use git_castle.Prelude.Tests.{leb, if◌then◌else◌}
use git_castle.Prelude.Int.{ℤ, pos, negsuc}
use git_castle.Prelude.Text.{cut_prefix}

abbrev pub is_digit : ℕ → Bool
is_digit c = leb b'0' c && leb c b'9'

unfoldable pub digits_from : ℕ → String → Option ℕ
digits_from n String.[] = some n
digits_from n (String.◌∷◌ c rest) =
    if is_digit (code c) then digits_from (n * 10 + (code c - b'0')) rest else none

-- A text of at least one digit
pub digits : String → Option ℕ
unfolding digits_from
digits text = if text == "" then none else digits_from 0 text

abbrev pub not_above : ℕ → Option ℕ → Option ℤ
not_above limit none = none
not_above limit (some n) = if leb n limit then some (pos n) else none

abbrev pub minus : ℕ → ℤ
minus zero = pos zero
minus (suc n) = negsuc n

abbrev pub not_below : ℕ → Option ℕ → Option ℤ
not_below limit none = none
not_below limit (some n) = if leb n limit then some (minus n) else none

abbrev pub signed : String → Option String → Option String → Option ℤ
signed text (some rest) plus = not_below (2 ^ 63) (digits rest)
signed text none (some rest) = not_above (2 ^ 63 - 1) (digits rest)
signed text none none = not_above (2 ^ 63 - 1) (digits text)

-- strconv.Atoi; none is an error
pub atoi : String → Option ℤ
atoi text = signed text (cut_prefix "-" text) (cut_prefix "+" text)
