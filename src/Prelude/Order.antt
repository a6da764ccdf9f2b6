-- ===== src/Prelude/Order.antt =====
-- Orders on texts, and the insertion sort that `ORDER BY` and the listings share.
use Prim.Native.Char.{code}
use Prim.Native.Nat.{◌+◌}
use Prim.Native.String.{String}
use mathlib.Core.Bool.{Bool, true, false}
use mathlib.Core.List.{List, [], ◌∷◌}
use mathlib.Core.Path.{◌≡◌, refl}
use native.Mathlib.Omega.{arith}
use git_castle.Prelude.Tests.{eqb, ltb, if◌then◌else◌}
use git_castle.Prelude.Rows.{count}

-- The order of Go's `<` on strings: that of the bytes is that of the code points.
unfoldable pub less : String → String → Bool
less _ String.[] = false
less String.[] (String.◌∷◌ _ _) = true
less (String.◌∷◌ c s) (String.◌∷◌ d t) =
    let rest = less s t in if eqb (code c) (code d) then rest else ltb (code c) (code d)

module _ {ℓ} {A : Type ℓ} where
  -- A new element goes after those that do not have to follow it.
  pub insert_by : (A → A → Bool) → A → List A → List A
  insert_by lt x [] = x ∷ []
  insert_by lt x (y ∷ ys) = let rest = insert_by lt x ys in if lt x y then x ∷ y ∷ ys else y ∷ rest

  pub sort_from : (A → A → Bool) → List A → List A → List A
  sort_from lt sorted [] = sorted
  sort_from lt sorted (x ∷ xs) = sort_from lt (insert_by lt x sorted) xs

  -- A stable sort, smallest first
  unfoldable pub sort_by : (A → A → Bool) → List A → List A
  unfolding insert_by sort_from
  sort_by lt xs = sort_from lt [] xs

  -- Sorting keeps how many elements have a property.
  count-insert_by :
      (p : A → Bool) (lt : A → A → Bool) (x : A) (xs : List A)
      → count p (insert_by lt x xs) ≡ count p (x ∷ xs)
  unfolding count insert_by
  count-insert_by p lt x [] = refl
  count-insert_by p lt x (y ∷ ys) = ground (arith, count-insert_by p lt x ys)

  count-sort_from :
      (p : A → Bool) (lt : A → A → Bool) (sorted xs : List A)
      → count p (sort_from lt sorted xs) ≡ count p sorted + count p xs
  unfolding count sort_from
  count-sort_from p lt sorted [] = omega arith
  count-sort_from p lt sorted (x ∷ xs) =
      ground (arith, count-sort_from p lt (insert_by lt x sorted) xs, count-insert_by p lt x sorted)

  pub count-sort_by :
      (p : A → Bool) (lt : A → A → Bool) (xs : List A) → count p (sort_by lt xs) ≡ count p xs
  unfolding count sort_by
  count-sort_by p lt xs = omega (arith, count-sort_from p lt [] xs)
