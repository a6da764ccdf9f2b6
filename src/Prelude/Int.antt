-- ===== src/Prelude/Int.antt =====
-- Go's `int` and `int64` where a value may be negative. The 64-bit range is not modelled: no code
-- modelled here adds to such a value.
use Prim.Native.Nat.{ℕ, suc, ◌+◌, ◌-◌, ◌≤◌}
use mathlib.Core.Path.{◌≡◌}
use mathlib.Core.Bool.{Bool}
use native.Mathlib.Omega.{arith}
use git_castle.Prelude.Tests.{leb, ltb, if◌then◌else◌}
use git_castle.Prelude.{false}

-- `negsuc n` is -(n + 1).
pub data ℤ : Type 0 where
  pos : ℕ → ℤ
  negsuc : ℕ → ℤ

abbrev pub pos_part : ℤ → ℕ
pos_part (pos n) = n
pos_part (negsuc n) = 0

abbrev pub neg_part : ℤ → ℕ
neg_part (pos n) = 0
neg_part (negsuc n) = suc n

-- a - b, as an integer.
abbrev pub sub_ℕ : ℕ → ℕ → ℤ
sub_ℕ a b = if leb b a then pos (a - b) else negsuc (b - a - 1)

infixl 65 ◌+ℤ◌
pub ◌+ℤ◌ : ℤ → ℤ → ℤ
a +ℤ b = sub_ℕ (pos_part a + pos_part b) (neg_part a + neg_part b)

infix 50 ◌≤ℤ◌
abbrev pub ◌≤ℤ◌ : ℤ → ℤ → Type 0
a ≤ℤ b = pos_part a + neg_part b ≤ pos_part b + neg_part a

abbrev pub ltb_ℤ : ℤ → ℤ → Bool
ltb_ℤ a b = ltb (pos_part a + neg_part b) (pos_part b + neg_part a)

pub +ℤ_parts :
    (a b : ℤ)
    → pos_part (a +ℤ b) + neg_part a + neg_part b ≡ neg_part (a +ℤ b) + pos_part a + pos_part b
unfolding ◌+ℤ◌
+ℤ_parts a b = ground arith

pub sub_ℕ_parts : (a b : ℕ) → pos_part (sub_ℕ a b) + b ≡ neg_part (sub_ℕ a b) + a
sub_ℕ_parts a b = ground arith

abbrev pub min_ℤ : ℤ → ℤ → ℤ
min_ℤ a b = if ltb_ℤ a b then a else b

pub min_ℤ_right : (a b : ℤ) → min_ℤ a b ≤ℤ b
min_ℤ_right a b = ground arith

pub min_ℤ_left : (a b : ℤ) → min_ℤ a b ≤ℤ a
min_ℤ_left a b = ground arith

pub neg_part-minus : (a : ℤ) (n : ℕ) → ltb_ℤ a (pos n) ≡ false → neg_part (a +ℤ sub_ℕ 0 n) ≡ 0
unfolding ◌+ℤ◌
neg_part-minus a n h = ground arith

pub neg_part-min : (n : ℕ) (a : ℤ) → neg_part a ≡ 0 → neg_part (min_ℤ (pos n) a) ≡ 0
neg_part-min n a h = ground arith

pub neg_part-gain : (a : ℤ) (x y : ℕ) → neg_part a ≡ 0 → y ≤ x → neg_part (a +ℤ sub_ℕ x y) ≡ 0
unfolding ◌+ℤ◌
neg_part-gain a x y h le = ground arith
