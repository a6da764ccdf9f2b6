-- ===== src/Prelude/Unique.antt =====
-- Rows found by a condition that at most one row meets, and counts through map and filter.
use mathlib.Core.List.{map}
use Prim.Native.Nat.{◌≤◌}
use mathlib.Core.Path.{◌≡◌, refl, ap}
use mathlib.Core.Bool.{Bool, false, ◌&&◌, not}
use mathlib.Core.Option.{Option, none, some}
use mathlib.Core.List.{List, [], ◌∷◌, ◌++◌}
use native.Mathlib.Omega.{arith}
use git_castle.Prelude.Tests.{if◌then◌else◌}
use git_castle.Prelude.Rows.{filter, find?, any, count, delete}

module _ {ℓ} {A : Type ℓ} where
  pub count-ext : (p q : A → Bool) (xs : List A) → ((x : A) → p x ≡ q x) → count p xs ≡ count q xs
  unfolding count
  count-ext p q [] h = refl
  count-ext p q (x ∷ xs) h = ground (arith, h x, count-ext p q xs h)

  pub count-filter :
      (p q : A → Bool) (xs : List A) → count p (filter q xs) ≡ count (λ x. q x && p x) xs
  unfolding count filter
  count-filter p q [] = refl
  count-filter p q (x ∷ xs) = ground (arith, count-filter p q xs)

  pub count-map {κ} :
      {B : Type κ} (p : B → Bool) (f : A → B) (xs : List A)
      → count p (map f xs) ≡ count (λ x. p (f x)) xs
  unfolding count
  count-map p f [] = refl
  count-map p f (x ∷ xs) = ground (arith, count-map p f xs)

  pub filter-ext :
      (p q : A → Bool) (xs : List A) → ((x : A) → p x ≡ q x) → filter p xs ≡ filter q xs
  unfolding filter
  filter-ext p q [] h = refl
  filter-ext p q (x ∷ xs) h = ground (arith, h x, filter-ext p q xs h)

  any_of_count : (p q : A → Bool) (xs : List A) → count p xs ≡ 0 → any (λ x. q x && p x) xs ≡ false
  unfolding count any
  any_of_count p q [] h = refl
  any_of_count p q (x ∷ xs) h = ground (arith, any_of_count p q xs)

  pub count_of_find? : (p : A → Bool) (xs : List A) → find? p xs ≡ none → count p xs ≡ 0
  unfolding count find?
  count_of_find? p [] h = refl
  count_of_find? p (x ∷ xs) h = ground (arith, count_of_find? p xs)

  -- Of a unique row a further condition holds, or of none.
  pub any_unique :
      (p q : A → Bool) (xs : List A) (x : A)
      → count p xs ≤ 1
      → find? p xs ≡ some x
      → any (λ y. q y && p y) xs ≡ q x
  unfolding count find? any
  any_unique p q [] x c h = ground arith
  any_unique p q (y ∷ ys) x c h = ground (arith, any_unique p q ys x, any_of_count p q ys)

  abbrev pub keep : (A → Bool) → Option A → Option A
  keep q none = none
  keep q (some x) = if q x then some x else none

  find?_of_count :
      (p q : A → Bool) (xs : List A) → count p xs ≡ 0 → find? (λ x. p x && q x) xs ≡ none
  unfolding count find?
  find?_of_count p q [] h = refl
  find?_of_count p q (x ∷ xs) h = ground (arith, find?_of_count p q xs)

  pub find?-unique :
      (p q : A → Bool) (xs : List A)
      → count p xs ≤ 1
      → find? (λ x. p x && q x) xs ≡ keep q (find? p xs)
  unfolding count find?
  find?-unique p q [] c = refl
  find?-unique p q (x ∷ xs) c = ground (arith, find?-unique p q xs, find?_of_count p q xs)

  find?-delete_of_count :
      (p q : A → Bool) (xs : List A) → count p xs ≡ 0 → find? p (delete q xs) ≡ none
  unfolding count find? delete
  find?-delete_of_count p q [] h = refl
  find?-delete_of_count p q (x ∷ xs) h = ground (arith, find?-delete_of_count p q xs)

  pub find?-delete_unique :
      (p q : A → Bool) (xs : List A)
      → count p xs ≤ 1
      → find? p (delete q xs) ≡ keep (λ x. not (q x)) (find? p xs)
  unfolding count find? delete
  find?-delete_unique p q [] c = refl
  find?-delete_unique p q (x ∷ xs) c =
      ground (arith, find?-delete_unique p q xs, find?-delete_of_count p q xs)

module _ {ℓ κ} {A : Type ℓ} {B : Type κ} where
  pub map-snoc :
      (f : A → B) (xs : List A) (x : A) (ys : List B)
      → map f (xs ++ x ∷ []) ++ ys ≡ map f xs ++ f x ∷ ys
  map-snoc f [] x ys = refl
  map-snoc f (y ∷ xs) x ys = ap {B = List B} (λ r. f y ∷ r) (map-snoc f xs x ys)
