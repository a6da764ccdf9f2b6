-- ===== src/Prelude/Rows.antt =====
-- Lists as database tables: selection, update and deletion by a Boolean condition.
use Prim.Native.Nat.{ℕ, suc, ◌+◌, ◌≤◌}
use mathlib.Core.Path.{◌≡◌, refl}
use mathlib.Core.Bool.{Bool, true, false, ◌||◌}
use mathlib.Core.Option.{Option, none, some}
use mathlib.Core.List.{List, [], ◌∷◌, ◌++◌}
use native.Mathlib.Omega.{arith}
use git_castle.Prelude.Tests.{if◌then◌else◌}

module _ {ℓ} {A : Type ℓ} where
  abbrev pub length : List A → ℕ
  length [] = 0
  length (x ∷ xs) = suc (length xs)

  -- SELECT: the rows that meet the condition, in table order.
  unfoldable pub filter : (A → Bool) → List A → List A
  filter p [] = []
  filter p (x ∷ xs) = let rest = filter p xs in if p x then x ∷ rest else rest

  -- QueryRow: the first such row.
  unfoldable pub find? : (A → Bool) → List A → Option A
  find? p [] = none
  find? p (x ∷ xs) = let rest = find? p xs in if p x then some x else rest

  unfoldable pub any : (A → Bool) → List A → Bool
  any p [] = false
  any p (x ∷ xs) = p x || any p xs

  unfoldable pub count : (A → Bool) → List A → ℕ
  count p [] = 0
  count p (x ∷ xs) = (if p x then 1 else 0) + count p xs

  -- UPDATE … SET f WHERE p.
  unfoldable pub update : (A → Bool) → (A → A) → List A → List A
  update p f [] = []
  update p f (x ∷ xs) = (if p x then f x else x) ∷ update p f xs

  -- DELETE … WHERE p.
  unfoldable pub delete : (A → Bool) → List A → List A
  delete p [] = []
  delete p (x ∷ xs) = let rest = delete p xs in if p x then rest else x ∷ rest

  abbrev pub All {κ} : (A → Type κ) → List A → Type κ
  All P [] = Unit
  All P (x ∷ xs) = P x × All P xs

  pub length-append : (xs ys : List A) → length (xs ++ ys) ≡ length xs + length ys
  length-append [] ys = omega arith
  length-append (x ∷ xs) ys = omega (arith, length-append xs ys)

  pub count-append : (p : A → Bool) (xs ys : List A) → count p (xs ++ ys) ≡ count p xs + count p ys
  unfolding count
  count-append p [] ys = omega arith
  count-append p (x ∷ xs) ys = omega (arith, count-append p xs ys)

  -- An update that keeps the condition keeps the count.
  pub count-update :
      (p q : A → Bool) (f : A → A) (xs : List A)
      → ((x : A) → q x ≡ true → p (f x) ≡ p x)
      → count p (update q f xs) ≡ count p xs
  unfolding count update
  count-update p q f [] h = refl
  count-update p q f (x ∷ xs) h = ground (arith, h x, count-update p q f xs h)

  pub find?-sat : (p : A → Bool) (xs : List A) (x : A) → find? p xs ≡ some x → p x ≡ true
  unfolding find?
  find?-sat p [] x h = ground arith
  find?-sat p (y ∷ ys) x h = ground (arith, find?-sat p ys x)

  pub find?-append :
      (p : A → Bool) (xs ys : List A) (x : A) → find? p xs ≡ some x → find? p (xs ++ ys) ≡ some x
  unfolding find?
  find?-append p [] ys x h = ground arith
  find?-append p (z ∷ zs) ys x h = ground (arith, find?-append p zs ys x)

  pub find?-append_none :
      (p : A → Bool) (xs ys : List A) → find? p xs ≡ none → find? p (xs ++ ys) ≡ find? p ys
  unfolding find?
  find?-append_none p [] ys h = refl
  find?-append_none p (z ∷ zs) ys h = ground (arith, find?-append_none p zs ys)

  abbrev pub revise : (A → Bool) → (A → A) → Option A → Option A
  revise q f none = none
  revise q f (some x) = some (if q x then f x else x)

  -- An update that keeps the condition changes the row that is found, and no more.
  pub find?-update :
      (p q : A → Bool) (f : A → A) (xs : List A)
      → ((x : A) → q x ≡ true → p (f x) ≡ p x)
      → find? p (update q f xs) ≡ revise q f (find? p xs)
  unfolding find? update
  find?-update p q f [] h = refl
  find?-update p q f (x ∷ xs) h = ground (arith, h x, find?-update p q f xs h)

  pub find?-none-any : (p : A → Bool) (xs : List A) → any p xs ≡ false → find? p xs ≡ none
  unfolding find? any
  find?-none-any p [] h = refl
  find?-none-any p (x ∷ xs) h = ground (arith, find?-none-any p xs)

  pub find?-delete :
      (p q : A → Bool) (xs : List A)
      → ((x : A) → p x ≡ true → q x ≡ true)
      → find? p (delete q xs) ≡ none
  unfolding find? delete
  find?-delete p q [] h = refl
  find?-delete p q (x ∷ xs) h = ground (arith, h x, find?-delete p q xs h)

  pub find?-delete_ne :
      (p q : A → Bool) (xs : List A)
      → ((x : A) → p x ≡ true → q x ≡ false)
      → find? p (delete q xs) ≡ find? p xs
  unfolding find? delete
  find?-delete_ne p q [] h = refl
  find?-delete_ne p q (x ∷ xs) h = ground (arith, h x, find?-delete_ne p q xs h)

  pub count-any : (p : A → Bool) (xs : List A) → any p xs ≡ false → count p xs ≡ 0
  unfolding count any
  count-any p [] h = refl
  count-any p (x ∷ xs) h = ground (arith, count-any p xs)

  pub count-delete-le : (p q : A → Bool) (xs : List A) → count p (delete q xs) ≤ count p xs
  unfolding count delete
  count-delete-le p q [] = omega arith
  count-delete-le p q (x ∷ xs) = ground (arith, count-delete-le p q xs)

  pub any-append : (p : A → Bool) (xs : List A) (x : A) → p x ≡ true → any p (xs ++ x ∷ []) ≡ true
  unfolding any
  any-append p [] x h = ground arith
  any-append p (y ∷ xs) x h = ground (arith, any-append p xs x h)

  pub delete_none : (p : A → Bool) (xs : List A) → any p xs ≡ false → delete p xs ≡ xs
  unfolding any delete
  delete_none p [] h = refl
  delete_none p (x ∷ xs) h = ground (arith, delete_none p xs)

  pub any-append_eq :
      (p : A → Bool) (xs : List A) (x : A) → any p (xs ++ x ∷ []) ≡ (p x || any p xs)
  unfolding any
  any-append_eq p [] x = ground arith
  any-append_eq p (y ∷ xs) x = ground (arith, any-append_eq p xs x)

  pub any_mono :
      (p q : A → Bool) (xs : List A)
      → ((x : A) → p x ≡ true → q x ≡ true)
      → any q xs ≡ false
      → any p xs ≡ false
  unfolding any
  any_mono p q [] h e = refl
  any_mono p q (x ∷ xs) h e = ground (arith, h x, any_mono p q xs h)

  pub find?-delete-none :
      (p q : A → Bool) (xs : List A) → find? p xs ≡ none → find? p (delete q xs) ≡ none
  unfolding find? delete
  find?-delete-none p q [] h = refl
  find?-delete-none p q (x ∷ xs) h = ground (arith, find?-delete-none p q xs)

  pub find?-append_other :
      (p : A → Bool) (xs : List A) (x : A) → p x ≡ false → find? p (xs ++ x ∷ []) ≡ find? p xs
  unfolding find?
  find?-append_other p [] x h = ground arith
  find?-append_other p (y ∷ xs) x h = ground (arith, find?-append_other p xs x h)

  pub any-find?-none : (p : A → Bool) (xs : List A) → find? p xs ≡ none → any p xs ≡ false
  unfolding find? any
  any-find?-none p [] h = refl
  any-find?-none p (x ∷ xs) h = ground (arith, any-find?-none p xs)

  pub any-find?-some : (p : A → Bool) (xs : List A) (x : A) → find? p xs ≡ some x → any p xs ≡ true
  unfolding find? any
  any-find?-some p [] x h = ground arith
  any-find?-some p (y ∷ xs) x h = ground (arith, any-find?-some p xs x)
