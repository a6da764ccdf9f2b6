-- ===== src/Storage/Objects.antt =====
-- What the file system holds at a path, before and after the calls that internal/storage makes.
use git_castle.Prelude.{
  find?-append_other, eq_iff, refl, inr, find?-delete_ne, false≢true, sym, inl, eq_refl, arith, ap,
  [], ◌∷◌, ◌∙◌, ◌++◌, subst, none, Bool-cases, ℕ, update, true, some, false, Bool, ◌≡◌, find?,
  delete, String, List, any, Option,
}
use git_castle.Storage.Files.{with_data, move_to, at_path, Volume, File, written, moved}
use git_castle.Storage.Paths.{same_path, FilePath}

pub path_eq : (p q : FilePath) → same_path p q ≡ true → p ≡ q
unfolding same_path
path_eq [] [] h = refl
path_eq [] (b ∷ q) h = absurd (false≢true h)
path_eq (a ∷ p) [] h = absurd (false≢true h)
path_eq (a ∷ p) (b ∷ q) h = grind (arith, path_eq p q, eq_iff)

pub same_path_refl : (p : FilePath) → same_path p p ≡ true
unfolding same_path
same_path_refl [] = refl
same_path_refl (a ∷ p) = rw eq_refl (same_path_refl p)

abbrev pub bytes_of : Option File → Option String
bytes_of none = none
bytes_of (some file) = some file.bytes

unfoldable pub object_at : FilePath → Volume → Option String
object_at p v = bytes_of (find? (at_path p) v.files)

-- A file at one path is not at another.
pub at-other :
    (p q : FilePath) (f : File) → same_path q p ≡ false → at_path q f ≡ true → at_path p f ≡ false
at-other p q f apart at = subst (λ r. same_path r p ≡ false) (sym (path_eq f.path q at)) apart

module _ (p : FilePath) (text : String) (now : ℕ) where
  find-update :
      (files : List File)
      → any (at_path p) files ≡ true
      → bytes_of (find? (at_path p) (update (at_path p) (with_data text now) files)) ≡ some text
  unfolding any find? update
  find-update [] h = ground arith
  find-update (f ∷ files) h = ground (arith, find-update files)

  find-update_other :
      (q : FilePath) (files : List File)
      → same_path q p ≡ false
      → bytes_of (find? (at_path q) (update (at_path p) (with_data text now) files))
        ≡ bytes_of (find? (at_path q) files)
  unfolding find? update
  find-update_other q [] h = refl
  find-update_other q (f ∷ files) h = ground (arith, find-update_other q files h, at-other p q f h)

module _ (from to : FilePath) where
  find-moved_in :
      (files : List File)
      → any (at_path to) files ≡ false
      → bytes_of (find? (at_path to) (update (at_path from) (move_to to) files))
        ≡ bytes_of (find? (at_path from) files)
  unfolding any find? update
  find-moved_in [] h = refl
  find-moved_in (f ∷ files) h = ground (arith, find-moved_in files, same_path_refl to)

  find-moved_other :
      (q : FilePath) (files : List File)
      → same_path q from ≡ false
      → same_path to q ≡ false
      → bytes_of (find? (at_path q) (update (at_path from) (move_to to) files))
        ≡ bytes_of (find? (at_path q) files)
  unfolding find? update
  find-moved_other q [] h k = refl
  find-moved_other q (f ∷ files) h k =
      ground (arith, find-moved_other q files h k, at-other from q f h)

any-delete {ℓ} : {A : Type ℓ} (p : A → Bool) (xs : List A) → any p (delete p xs) ≡ false
unfolding any delete
any-delete p [] = refl
any-delete p (x ∷ xs) = ground (arith, any-delete p xs)

find-append_here :
    (p : FilePath) (file : File) (files : List File)
    → any (at_path p) files ≡ false
    → at_path p file ≡ true
    → find? (at_path p) (files ++ file ∷ []) ≡ some file
unfolding any find?
find-append_here p file [] h at = ground arith
find-append_here p file (f ∷ files) h at = ground (arith, find-append_here p file files)

-- A written file holds what was written, and no other file changes.
pub object_at-written :
    (p : FilePath) (text : String) (v : Volume) → object_at p (written p text v) ≡ some text
unfolding object_at written
object_at-written p text v = elim (Bool-cases (any (at_path p) v.files)) [
  | inl h ↦ rw h (find-update p text v.clock v.files h)
  | inr h ↦ rw h (ap bytes_of (find-append_here p _ v.files h (same_path_refl p)))
]

pub object_at-written_other :
    (p q : FilePath) (text : String) (v : Volume)
    → same_path q p ≡ false
    → same_path p q ≡ false
    → object_at q (written p text v) ≡ object_at q v
unfolding object_at written
object_at-written_other p q text v h k = elim (Bool-cases (any (at_path p) v.files)) [
  | inl e ↦ rw e (find-update_other p text v.clock q v.files h)
  | inr e ↦ rw e (ap bytes_of (find?-append_other (at_path q) v.files _ k))
]

-- A move takes the file along, and no third path changes.
pub find-moved :
    (from to : FilePath) (files : List File)
    → same_path to from ≡ false
    → same_path from to ≡ false
    → bytes_of (find? (at_path to) (moved from to files)) ≡ bytes_of (find? (at_path from) files)
unfolding moved
find-moved from to files h k =
    find-moved_in from to (delete (at_path to) files) (any-delete (at_path to) files)
    ∙ ap bytes_of
        (find?-delete_ne (at_path from) (at_path to) files λ f at. at-other to from f k at)

pub find-moved_elsewhere :
    (from to q : FilePath) (files : List File)
    → same_path q from ≡ false
    → same_path to q ≡ false
    → same_path q to ≡ false
    → bytes_of (find? (at_path q) (moved from to files)) ≡ bytes_of (find? (at_path q) files)
unfolding moved
find-moved_elsewhere from to q files h k l =
    find-moved_other from to q (delete (at_path to) files) h k
    ∙ ap bytes_of (find?-delete_ne (at_path q) (at_path to) files λ f at. at-other to q f l at)
