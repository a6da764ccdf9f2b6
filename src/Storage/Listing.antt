-- ===== src/Storage/Listing.antt =====
-- The order and the completeness of LocalStore.List.
use git_castle.Prelude.{
  count-filter, filter, count-map, ◌∙◌, false, ◌&&◌, true, refl, inr, ◌||◌, ◌+◌, inl, arith, ap,
  String, ◌≡◌, ltb, ◌≤◌, count, Bool-cases, ◌∷◌, ℕ, [], Bool, All, List,
}
use git_castle.Storage.Files.{
  walks_before, is_within, files_under, fault, after_call, system_call, Volume, walk, is_directory,
  is_file, blocked,
}
use git_castle.Storage.Local.{
  object_of, turned, sift_all, sift, newest_objects, list_objects, Object,
}
use git_castle.Storage.Paths.{object_path, FilePath}
use mathlib.Core.List.{map}
use git_castle.Errors.{ok}
use git_castle.Prelude.Order.{count-sort_by}

abbrev pub OldestFirst : List Object → Type 0
OldestFirst [] = Unit
OldestFirst (o ∷ rest) = All (λ q. o.modified ≤ q.modified) rest × OldestFirst rest

abbrev pub NewestFirst : List Object → Type 0
NewestFirst [] = Unit
NewestFirst (o ∷ rest) = All (λ q. q.modified ≤ o.modified) rest × NewestFirst rest

All-map {ℓ κ μ} :
    {A : Type ℓ} {P : A → Type κ} {Q : A → Type μ} (xs : List A)
    → ((x : A) → P x → Q x)
    → All P xs
    → All Q xs
All-map [] f h = tt
All-map (x ∷ xs) f (h, hs) = (f x h, All-map xs f hs)

All-sift :
    (n : ℕ) (object : Object) (sorted : List Object)
    → n ≤ object.modified
    → All (λ q. n ≤ q.modified) sorted
    → All (λ q. n ≤ q.modified) (sift object sorted)
unfolding sift
All-sift n object [] le h = (le, tt)
All-sift n object (previous ∷ rest) le (first, h) =
    elim (Bool-cases (ltb previous.modified object.modified)) [
      | inl e ↦ rw e (first, All-sift n object rest le h)
      | inr e ↦ rw e (le, (first, h))
    ]

sift-OldestFirst :
    (object : Object) (sorted : List Object) → OldestFirst sorted → OldestFirst (sift object sorted)
unfolding sift
sift-OldestFirst object [] h = (tt, tt)
sift-OldestFirst object (previous ∷ rest) (first, h) =
    elim (Bool-cases (ltb previous.modified object.modified)) [
      | inl e ↦
          let le : previous.modified ≤ object.modified = ground arith in
          rw e (All-sift previous.modified object rest le first, sift-OldestFirst object rest h)
      | inr e ↦
          let le : object.modified ≤ previous.modified = ground arith in
          rw e ((le, All-map rest (λ q k. omega arith) first), (first, h))
    ]

sift_all-OldestFirst :
    (sorted objects : List Object) → OldestFirst sorted → OldestFirst (sift_all sorted objects)
unfolding sift_all
sift_all-OldestFirst sorted [] h = h
sift_all-OldestFirst sorted (o ∷ rest) h =
    sift_all-OldestFirst (sift o sorted) rest (sift-OldestFirst o sorted h)

turned-NewestFirst :
    (back objects : List Object)
    → NewestFirst back
    → OldestFirst objects
    → All (λ o. All (λ q. q.modified ≤ o.modified) back) objects
    → NewestFirst (turned back objects)
unfolding turned
turned-NewestFirst back [] newest oldest below = newest
turned-NewestFirst back (o ∷ rest) newest (first, oldest) (least, below) =
    turned-NewestFirst (o ∷ back) rest (least, newest) oldest (both rest first below)
  where
    both :
        (objects : List Object)
        → All (λ q. o.modified ≤ q.modified) objects
        → All (λ o. All (λ q. q.modified ≤ o.modified) back) objects
        → All (λ p. All (λ q. q.modified ≤ p.modified) (o ∷ back)) objects
    both [] a b = tt
    both (p ∷ objects) (a, above) (b, older) = ((a, b), both objects above older)

All-of_none :
    (objects : List Object) → All (λ o. All {A = Object} (λ q. q.modified ≤ o.modified) []) objects
All-of_none [] = tt
All-of_none (o ∷ objects) = (tt, All-of_none objects)

newest_objects-NewestFirst : (objects : List Object) → NewestFirst (newest_objects objects)
unfolding newest_objects
newest_objects-NewestFirst objects =
    turned-NewestFirst [] (sift_all [] objects) tt (sift_all-OldestFirst [] objects tt)
      (All-of_none (sift_all [] objects))

module _ (p : Object → Bool) where
  count-sift :
      (object : Object) (sorted : List Object)
      → count p (sift object sorted) ≡ count p (object ∷ sorted)
  unfolding count sift
  count-sift object [] = refl
  count-sift object (previous ∷ rest) = ground (arith, count-sift object rest)

  count-sift_all :
      (sorted objects : List Object)
      → count p (sift_all sorted objects) ≡ count p sorted + count p objects
  unfolding count sift_all
  count-sift_all sorted [] = omega arith
  count-sift_all sorted (o ∷ rest) =
      ground (arith, count-sift_all (sift o sorted) rest, count-sift o sorted)

  count-turned :
      (back objects : List Object) → count p (turned back objects) ≡ count p back + count p objects
  unfolding count turned
  count-turned back [] = omega arith
  count-turned back (o ∷ rest) = ground (arith, count-turned (o ∷ back) rest)

  count-newest_objects :
      (objects : List Object) → count p (newest_objects objects) ≡ count p objects
  unfolding count newest_objects
  count-newest_objects objects =
      omega (arith, count-turned [] (sift_all [] objects), count-sift_all [] objects)

  count-listed :
      (root prefix : FilePath) (v : Volume)
      → count p (newest_objects (map (object_of root) (files_under prefix v)))
        ≡ count (λ f. is_within prefix f.path && p (object_of root f)) v.files
  count-listed root prefix v =
      count-newest_objects (map (object_of root) (files_under prefix v))
      ∙ count-map p (object_of root) (files_under prefix v)
      ∙ count-sort_by (λ f. p (object_of root f)) walks_before
          (filter (λ f. is_within prefix f.path) v.files)
      ∙ count-filter (λ f. p (object_of root f)) (λ f. is_within prefix f.path) v.files

blocked-after : (q : FilePath) (v : Volume) → blocked q (after_call v) ≡ blocked q v
unfolding blocked is_file
blocked-after [] v = refl
blocked-after (name ∷ q) v = ap (λ b. is_file q v || b) (blocked-after q v)

there-after :
    (p : FilePath) (v : Volume)
    → (is_file p (after_call v) || is_directory p (after_call v))
      ≡ (is_file p v || is_directory p v)
unfolding is_file is_directory
there-after p v = refl

-- When no call of the operating system fails, List of a prefix that is a file or a directory
-- returns the files under it and no others, each as often as it is there, the newest first; of a
-- prefix that is neither, and whose path no file blocks, it returns nothing and no error.
pub list_objects_lem :
    (root p : FilePath) (prefix : String) (v : Volume)
    → v.faults ≡ []
    → object_path root prefix ≡ ok p
    → ((is_file p v || is_directory p v) ≡ true
        → (objects : List Object) × ((list_objects root prefix v).0 ≡ ok objects)
          × NewestFirst objects
          × ((q : Object → Bool)
              → count q objects ≡ count (λ f. is_within p f.path && q (object_of root f)) v.files))
      × ((is_file p v || is_directory p v) ≡ false
          → blocked p v ≡ false
          → (list_objects root prefix v).0 ≡ ok [])
unfolding list_objects walk system_call fault
list_objects_lem root p prefix v up at = (
  λ there. (
    newest_objects (map (object_of root) (files_under p v)),
    rw at (rw (ap fault up) (rw (there-after p v ∙ there) refl)),
    newest_objects-NewestFirst _,
    λ q. count-listed q root p v,
  ),
  λ gone clear.
      rw at (rw (ap fault up) (rw (there-after p v ∙ gone, blocked-after p v ∙ clear) refl)),
)
