-- ===== src/Storage/Calls.antt =====
-- What the calls of Put do to the objects: the files whose name does not end in ".tmp".
use git_castle.Prelude.Text.{append, same_text, has_suffix}
use git_castle.Storage.Files.{
  with_directories, moved, fails, works, fault, fails_after, blocked, broken, write_to, rename,
  move, is_file, is_directory, guarded, written, write_file, done, Fault, make_all, after_call,
  system_call, mkdir_all, Volume, Call,
}
use git_castle.Storage.Objects.{
  find-moved_elsewhere, same_path_refl, find-moved, path_eq, object_at-written,
  object_at-written_other, object_at,
}
use git_castle.Storage.Paths.{parent, same_path, temporary, FilePath}
use text.Mathlib.TextLemmas.{nil-append, cons-append}
use git_castle.Prelude.{
  [], ap, ◌∙◌, sym, not, ◌||◌, refl, inr, inl, ◌⊎◌, ◌∷◌, arith, true, some, false, Bool-cases, ◌≡◌,
  String, Bool,
}

same_text_refl : (s : String) → same_text s s ≡ true
unfolding same_text
same_text_refl String.[] = refl
same_text_refl (String.◌∷◌ c s) = ground (arith, same_text_refl s)

suffix-itself : (s : String) → has_suffix s s ≡ true
unfolding has_suffix
suffix-itself String.[] = same_text_refl ""
suffix-itself (String.◌∷◌ c s) = ground (arith, same_text_refl (String.◌∷◌ c s))

has_suffix-append : (name suffix : String) → has_suffix (append name suffix) suffix ≡ true
unfolding has_suffix
has_suffix-append String.[] suffix = rw nil-append (suffix-itself suffix)
has_suffix-append (String.◌∷◌ c name) suffix =
    rw (cons-append c name suffix) (ground (arith, has_suffix-append name suffix))

unfoldable pub is_temporary : FilePath → Bool
is_temporary [] = false
is_temporary (name ∷ _) = has_suffix name ".tmp"

temporary-IsTemporary : (p : FilePath) → is_temporary (temporary p) ≡ true
unfolding is_temporary has_suffix same_text
temporary-IsTemporary [] = refl
temporary-IsTemporary (name ∷ p) = has_suffix-append name ".tmp"

refuted : (b : Bool) → (b ≡ true → false ≡ true) → b ≡ false
refuted true h = sym (h refl)
refuted false h = refl

pub apart : (p q : FilePath) → is_temporary q ≡ false → same_path q (temporary p) ≡ false
apart p q plain =
    refuted _ λ h. sym plain ∙ ap is_temporary (path_eq q (temporary p) h) ∙ temporary-IsTemporary p

pub apart_from : (p q : FilePath) → is_temporary q ≡ false → same_path (temporary p) q ≡ false
apart_from p q plain =
    refuted _
      λ h. sym plain ∙ ap is_temporary (sym (path_eq (temporary p) q h)) ∙ temporary-IsTemporary p

-- The same objects
abbrev pub Same : Volume → Volume → Type 0
Same v w = (q : FilePath) → is_temporary q ≡ false → object_at q w ≡ object_at q v

-- A call works, with what it then gives, or fails and leaves the objects as they are.
abbrev pub Works : Call (Unit {0}) → Volume → (Volume → Type 0) → Type 0
Works call v P =
    ((w : Volume) × (call v ≡ (done tt, w)) × P w)
    ⊎ ((w : Volume) × (call v ≡ (broken, w)) × Same v w)

system_call-Works :
    (q : Call (Unit {0})) (v : Volume) (P : Volume → Type 0)
    → Works q (after_call v) P
    → Works (system_call q) v P
unfolding system_call object_at
system_call-Works q v P h = go (fault v.faults)
  where
    go : (f : Fault) → Works (guarded f q) (after_call v) P
    go works = h
    go fails = inr (after_call v, refl, λ q plain. refl)
    go (fails_after part) = inr (after_call v, refl, λ q plain. refl)

make_all-Works : (p : FilePath) (v : Volume) → Works (make_all p) v (Same v)
unfolding object_at
make_all-Works p v = elim (Bool-cases (is_file p v || blocked p v)) [
  | inl h ↦ inr (v, rw h refl, λ q plain. refl)
  | inr h ↦
      inl (record v { directories = with_directories p v.directories }, rw h refl, λ q plain. refl)
]

pub mkdir_all-Works : (p : FilePath) (v : Volume) → Works (mkdir_all p) v (Same v)
unfolding mkdir_all object_at
mkdir_all-Works p v = system_call-Works (make_all p) v (Same v) (make_all-Works p (after_call v))

-- The temporary file of a path is written.
module _ (p : FilePath) (text : String) where
  abbrev pub Holds : Volume → Volume → Type 0
  Holds v w = (object_at (temporary p) w ≡ some text) × Same v w

  written-Same : (t : String) (v : Volume) → Same v (written (temporary p) t v)
  written-Same t v q plain =
      object_at-written_other (temporary p) q t v (apart p q plain) (apart_from p q plain)

  write_to-Works : (f : Fault) (v : Volume) → Works (write_to (temporary p) text f) v (Holds v)
  write_to-Works works v = inl (
    written (temporary p) text v,
    refl,
    (object_at-written (temporary p) text v, written-Same text v),
  )
  write_to-Works fails v = inr (v, refl, λ q plain. refl)
  write_to-Works (fails_after part) v =
      inr (written (temporary p) part v, refl, written-Same part v)

  pub write_file-Works : (v : Volume) → Works (write_file (temporary p) text) v (Holds v)
  unfolding write_file object_at
  write_file-Works v =
      elim (Bool-cases
        (is_directory (temporary p) v || not (is_directory (parent (temporary p)) v))) [
          | inl h ↦ inr (after_call v, rw h refl, λ q plain. refl)
          | inr h ↦ rw h (write_to-Works (fault v.faults) (after_call v))
        ]

-- The temporary file becomes the object, and no other object changes.
module _ (p : FilePath) (plain : is_temporary p ≡ false) where
  abbrev pub Renamed : Volume → Volume → Type 0
  Renamed v w =
      (object_at p w ≡ object_at (temporary p) v)
      × ((q : FilePath)
          → is_temporary q ≡ false
          → same_path q p ≡ false
          → object_at q w ≡ object_at q v)

  other_way : (q : FilePath) → same_path q p ≡ false → same_path p q ≡ false
  other_way q h =
      refuted _ λ e. sym h ∙ ap (λ r. same_path r p) (sym (path_eq p q e)) ∙ same_path_refl p

  move-Works : (v : Volume) → Works (move (temporary p) p) v (Renamed v)
  unfolding object_at
  move-Works v = elim (Bool-cases (is_directory p v || not (is_file (temporary p) v))) [
    | inl h ↦ inr (v, rw h refl, λ q h. refl)
    | inr h ↦ inl (
      record v { files = moved (temporary p) p v.files },
      rw h refl,
      (
        find-moved (temporary p) p v.files (apart p p plain) (apart_from p p plain),
        λ q ordinary differs.
            find-moved_elsewhere (temporary p) p q v.files (apart p q ordinary)
              (other_way q differs) differs,
      ),
    )
  ]

  pub rename-Works : (v : Volume) → Works (rename (temporary p) p) v (Renamed v)
  unfolding rename object_at
  rename-Works v =
      system_call-Works (move (temporary p) p) v (Renamed v) (move-Works (after_call v))
