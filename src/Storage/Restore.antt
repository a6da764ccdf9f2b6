-- ===== src/Storage/Restore.antt =====
-- A backup that was made can be read back.
use git_castle.Prelude.{
  Bool, Option-cases, some, arith, subst, any, false, inr, eq_iff, ap, ◌∙◌, sym, false≢true, inl,
  ◌==◌, [], refl, Bool-cases, ◌∷◌, true, ◌≡◌, String,
}
use git_castle.Prelude.Text.{
  same_text, append, rune_count, has_suffix, any_char, split, cut_prefix, contains_text,
}
use git_castle.Storage.Confined.{IsName}
use git_castle.Storage.Paths.{temporary, is_nul, object_path, clean_from, clean, enter, FilePath}
use git_castle.Storage.Backup.{kept, verified, Bundler, verify_restore, backup, backup_key, archive}
use git_castle.Prelude.Text.Laws.{split-append, has_suffix-longer, is_char, split-whole}
use git_castle.Storage.Calls.{is_temporary}
use text.Mathlib.TextLemmas.{append_assoc, nil-append, cons-append}
use git_castle.Storage.Files.{is_directory, blocked, Volume}
use git_castle.Errors.{err, Result, ok}
use git_castle.Storage.Local.{put_object, get_object}
use git_castle.Storage.Success.{put_object-get_object}

contains_self : contains_text ".." ".." ≡ true
unfolding contains_text cut_prefix
contains_self = refl

enter-IsName : (name : String) (p : FilePath) → IsName name → enter name p ≡ name ∷ p
enter-IsName name p h = elim (Bool-cases (name == "..")) [
  | inl e ↦ absurd (
      false≢true
        (sym h.climbs ∙ ap (λ s. contains_text s "..") ((eq_iff name "..").0 e) ∙ contains_self))
  | inr e ↦ rw (h.filled, h.moves, e) refl
]

split-slash :
    (a b : String)
    → any_char (is_char b'/') a ≡ false
    → split b'/' (append a (append "/" b)) ≡ a ∷ split b'/' b
split-slash a b h = rw (cons-append, nil-append) (split-append b'/' a _ b h refl)

no_slash : any_char (is_char b'/') "backups" ≡ false
unfolding any_char
no_slash = refl

module _ (owner name stamp : String) (is_owner : IsName owner) (is_name : IsName name)
    (is_archive : IsName (archive name stamp)) where
  split-backup_key :
      split b'/' (backup_key owner name stamp) ≡ "backups" ∷ owner ∷ name ∷ archive name stamp ∷ []
  unfolding backup_key
  split-backup_key =
      rw
        (
          split-slash "backups" _ no_slash,
          split-slash owner _ is_owner.single,
          split-slash name _ is_name.single,
          split-whole b'/' (archive name stamp) is_archive.single,
        )
        refl

  clean-backup_key :
      clean (backup_key owner name stamp) ≡ archive name stamp ∷ name ∷ owner ∷ "backups" ∷ []
  unfolding clean clean_from
  clean-backup_key =
      rw
        (
          split-backup_key,
          enter-IsName owner ("backups" ∷ []) is_owner,
          enter-IsName name (owner ∷ "backups" ∷ []) is_name,
          enter-IsName (archive name stamp) (name ∷ owner ∷ "backups" ∷ []) is_archive,
        )
        refl

  archive-IsOrdinary : has_suffix (archive name stamp) ".tmp" ≡ false
  unfolding has_suffix rune_count same_text
  archive-IsOrdinary =
      subst (λ s. has_suffix s ".tmp" ≡ false)
        (append_assoc name (append "-" stamp) ".bundle"
          ∙ ap (append name) (append_assoc "-" stamp ".bundle"))
        (has_suffix-longer (append name (append "-" stamp)) ".bundle" ".tmp" (omega arith) refl)

  names_climb :
      any (λ name. contains_text name "..") (archive name stamp ∷ name ∷ owner ∷ "backups" ∷ [])
      ≡ false
  unfolding any contains_text cut_prefix
  names_climb = rw (is_archive.climbs, is_name.climbs, is_owner.climbs) refl

  object_path-backup_key :
      (root : FilePath)
      → any_char is_nul (backup_key owner name stamp) ≡ false
      → object_path root (backup_key owner name stamp)
        ≡ ok (archive name stamp ∷ name ∷ owner ∷ "backups" ∷ root)
  unfolding object_path
  object_path-backup_key root printable = rw (printable, clean-backup_key, names_climb) refl

abbrev IsFree : FilePath → Volume → Type 0
IsFree p v =
    (blocked p v ≡ false) × (is_directory p v ≡ false) × (is_directory (temporary p) v ≡ false)

backed_up :
    (root : FilePath) (bundler : Bundler) (owner name stamp bundle : String) (v : Volume)
    → bundler.create owner name ≡ some bundle
    → backup root bundler stamp owner name v
      ≡ kept (backup_key owner name stamp) (put_object root (backup_key owner name stamp) bundle v)
unfolding backup put_object
backed_up root bundler owner name stamp bundle v made = rw (backup, made) refl

kept-ok : (key : String) (r : Result (Unit {0}) × Volume) → r.0 ≡ ok tt → kept key r ≡ (ok key, r.1)
kept-ok key (ok u, w) h = refl
kept-ok key (err e, w) h =
    absurd (false≢true (ap (λ r. elim r as (λ _. Bool) [ err _ ↦ false | ok _ ↦ true ]) h))

verified_of :
    (bundler : Bundler) (bundle : String) (r : Result String × Volume) (w : Volume)
    → r.0 ≡ ok bundle
    → (verified bundler r).0 ≡ (verified bundler (ok bundle, w)).0
verified_of bundler bundle (r, u) w h =
    ap (λ s. (verified bundler (s, u)).0) h ∙ elim (Option-cases (bundler.list_heads bundle)) [
      | inl e ↦ rw (verified, e) refl
      | inr (output, e) ↦ rw (verified, e) refl
    ]

-- When git can bundle the repository, no call of the operating system fails, the owner, the name and
-- the archive's name are names of directory entries without NUL, and the path of the archive is
-- free, Backup returns the key of the repository and the time, and Get of that key returns the
-- bundle, so VerifyRestore says what git lists for that bundle.
pub backup-verify_restore :
    (root : FilePath) (bundler : Bundler) (owner name stamp bundle : String) (v : Volume)
    → v.faults ≡ []
    → bundler.create owner name ≡ some bundle
    → IsName owner
    → IsName name
    → IsName (archive name stamp)
    → any_char is_nul (backup_key owner name stamp) ≡ false
    → IsFree (archive name stamp ∷ name ∷ owner ∷ "backups" ∷ root) v
    → let (r, w) = backup root bundler stamp owner name v in
      (r ≡ ok (backup_key owner name stamp))
      × ((get_object root (backup_key owner name stamp) w).0 ≡ ok bundle)
      × ((verify_restore root bundler (backup_key owner name stamp) w).0
          ≡ (verified bundler (ok bundle, w)).0)
unfolding verify_restore is_temporary
backup-verify_restore root bundler owner name stamp bundle v up made is_owner is_name is_archive
      printable (clear, new, free) =
    let at = object_path-backup_key owner name stamp is_owner is_name is_archive root printable in
    let (stored, back) =
      put_object-get_object root (backup_key owner name stamp) bundle (archive name stamp)
        (name ∷ owner ∷ "backups" ∷ root) v up at
        (archive-IsOrdinary owner name stamp is_owner is_name is_archive) clear new free in
    let e = backed_up root bundler owner name stamp bundle v made ∙ kept-ok _ _ stored in
    (
      ap (λ r. r.0) e,
      ap (λ r. (get_object root (backup_key owner name stamp) r.1).0) e ∙ back,
      verified_of bundler bundle _ _
          (ap (λ r. (get_object root (backup_key owner name stamp) r.1).0) e ∙ back),
    )
