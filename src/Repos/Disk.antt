-- ===== src/Repos/Disk.antt =====
-- Create of internal/repos/service.go: the rows of the database and the directories on disk.
use git_castle.Prelude.{
  none, some, Option, ◌++◌, sym, refl, eq_iff, any_mono, [], subst, count-append, count-any, arith,
  any-append_eq, List, inr, inl, delete_none, eq_refl, Bool-cases, ◌∷◌, delete, false, true, ◌≤◌,
  count, ◌≡◌, ◌==◌, any, String, ◌⊎◌, ◌&&◌, not, Bool,
}
use git_castle.Repos.Service.{
  valid_name, owner_directory, repository_path, make, create, recorded, remove_all, on_disk, World,
  Os, initialized, init_bare,
}
use git_castle.Repos.Store.{create_row, takes, insert_repository, is_repository}
use git_castle.Errors.{failed, repository_exists, err, Error}
use git_castle.Db.{Db}
use git_castle.Repos.Types.{CreateInput, Repository}
use git_castle.Exec.{next, statement_cases}

abbrev pub has_row : String → World → Bool
has_row path w = any (λ r. r.path == path) w.db.repositories

-- Every repository of the database has its directory, and no two rows share owner and name.
pub record IsStocked (w : World) : Type 0 where
  pub stored : (path : String) → has_row path w ≡ true → on_disk path w.disk ≡ true
  pub one_name : (owner name : String) → count (is_repository owner name) w.db.repositories ≤ 1

-- A directory that no row has
abbrev pub is_orphan : String → World → Bool
is_orphan path w = on_disk path w.disk && not (has_row path w)

-- A failure after which the code leaves a directory behind: that of a `git init` that leaves it, that
-- of `git config`, and that of removing the directory again.
abbrev pub LeavesBehind : Os → String → Type 0
LeavesBehind os path =
    ((os.git_init_works path ≡ false) × (os.git_init_leaves path ≡ true))
    ⊎ (os.git_config_works path ≡ false)
    ⊎ (os.remove_all_works path ≡ false)

-- The rows and directories after an attempt to make a repository at a path
abbrev pub Stays : Os → String → World → World → Type 0
Stays os path w after =
    IsStocked after
    × ((p : String)
        → is_orphan p after ≡ true
        → (is_orphan p w ≡ true) ⊎ ((p ≡ path) × LeavesBehind os path))

module _ (os : Os) (owner name path : String) (w : World) (h : IsStocked w) where
  unchanged-Stays : Stays os path w w
  unchanged-Stays = (h, λ p orphan. inl orphan)

  -- The rows stay, and so does the disk.
  same-Stays :
      (s : Db)
      → s.repositories ≡ w.db.repositories
      → Stays os path w (record { db = s; disk = w.disk })
  same-Stays s same = (
    record { stored = λ p. rw same (h.stored p); one_name = λ o n. rw same (h.one_name o n) },
    λ p. rw same λ orphan. inl orphan,
  )

  -- The rows stay, and the new directory is left behind.
  left-Stays :
      (s : Db)
      → s.repositories ≡ w.db.repositories
      → LeavesBehind os path
      → Stays os path w (record { db = s; disk = path ∷ w.disk })
  unfolding any
  left-Stays s same leaves = (
    record {
      stored = λ p. rw same (λ row. ground (arith, h.stored p row));
      one_name = λ o n. rw same (h.one_name o n);
    },
    λ p. rw same λ orphan. elim (Bool-cases (path == p)) [
      | inl here ↦ inr (sym ((eq_iff path p).0 here), leaves)
      | inr other ↦ inl (ground arith)
    ],
  )

  module _ (absent : on_disk path w.disk ≡ false) where
    abbrev new_row : Db → Repository
    new_row s = record {
      id = s.repository_seq;
      owner = owner;
      name = name;
      path = path;
      created_at = s.clock;
    }

    back_out : delete (λ p. p == path) (path ∷ w.disk) ≡ w.disk
    unfolding delete
    back_out = rw eq_refl (delete_none (λ p. p == path) w.disk absent)

    -- The row could not be inserted.
    failed-Stays :
        (e : Error) (s : Db)
        → s.repositories ≡ w.db.repositories
        → Stays os path w (recorded os path (path ∷ w.disk) (err e, s)).1
    failed-Stays e s same = elim (Bool-cases (os.remove_all_works path)) [
      | inl works ↦
          let cleared : remove_all os path (path ∷ w.disk) ≡ w.disk = rw works back_out in
          subst (λ disk. Stays os path w (record { db = s; disk = disk })) (sym cleared)
            (same-Stays s same)
      | inr fails ↦
          let kept : remove_all os path (path ∷ w.disk) ≡ path ∷ w.disk = rw fails refl in
          subst (λ disk. Stays os path w (record { db = s; disk = disk })) (sym kept)
            (left-Stays s same (inr (inr fails)))
    ]

    count-absent :
        (rows : List Repository) (o n : String)
        → any (takes owner name path) rows ≡ false
        → owner ≡ o
        → name ≡ n
        → count (is_repository o n) rows ≡ 0
    count-absent rows o n free e e' = count-any (is_repository o n) rows (
        subst (λ k. any (is_repository o k) rows ≡ false) e'
          (subst (λ k. any (is_repository k name) rows ≡ false) e
            (any_mono (is_repository owner name) (takes owner name path) rows (λ x t. ground arith)
              free)))

    -- The row is inserted.
    added-Stays :
        (s : Db)
        → s.repositories ≡ w.db.repositories
        → any (takes owner name path) s.repositories ≡ false
        → (t : Db) → t.repositories ≡ s.repositories ++ new_row s ∷ []
        → Stays os path w (record { db = t; disk = path ∷ w.disk })
    unfolding any count
    added-Stays s same free t added = (
      record {
        stored = λ p.
            rw (added, any-append_eq (λ r. r.path == p) s.repositories _, same)
              (λ row. ground (arith, h.stored p));
        one_name = λ o n.
            let before : count (is_repository o n) s.repositories ≤ 1 = rw same (h.one_name o n) in
            rw added (
              ground (
                arith,
                count-append (is_repository o n) s.repositories (new_row s ∷ []),
                before,
                count-absent s.repositories o n free,
                eq_iff owner o,
                eq_iff name n,
              ));
      },
      λ p.
          rw (added, any-append_eq (λ r. r.path == p) s.repositories _, same)
            λ orphan. inl (ground arith),
    )

    inserted-Stays :
        (s : Db)
        → s.repositories ≡ w.db.repositories
        → Stays os path w (recorded os path (path ∷ w.disk) (insert_repository owner name path s)).1
    unfolding insert_repository
    inserted-Stays s same = elim (Bool-cases (any (takes owner name path) s.repositories)) [
      | inl taken ↦ rw taken (failed-Stays repository_exists _ same)
      | inr free ↦ rw free (added-Stays s same free _ refl)
    ]

    recorded-Stays :
        Stays os path w (recorded os path (path ∷ w.disk) (create_row owner name path w.db)).1
    unfolding create_row
    recorded-Stays =
        elim (statement_cases "insert repository" (insert_repository owner name path) w.db) [
          | inl lost ↦ rw lost (failed-Stays (failed "insert repository") (next w.db) refl)
          | inr done ↦ rw done (inserted-Stays (next w.db) refl)
        ]

    abbrev After : Option Error × List String → Type 0
    After out = Stays os path w (initialized os owner name path w.db out).1

    abbrev made : Option Error × List String
    made = init_bare os path w.disk

    initialized-Stays : After made
    initialized-Stays = elim (Bool-cases (os.git_init_works path)) [
      | inr no_init ↦
          let failed_init = some (failed "initialize bare repository") in
          elim (Bool-cases (os.git_init_leaves path)) [
            | inl leaves ↦
                let out : made ≡ (failed_init, path ∷ w.disk) = rw (no_init, leaves) refl in
                subst After (sym out) (left-Stays w.db refl (inl (no_init, leaves)))
            | inr clean ↦
                let out : made ≡ (failed_init, w.disk) = rw (no_init, clean) refl in
                subst After (sym out) (same-Stays w.db refl)
          ]
      | inl init ↦ elim (Bool-cases (os.git_config_works path)) [
        | inr no_config ↦
            let out : made ≡ (some (failed "enable http.receivepack"), path ∷ w.disk) =
              rw (init, no_config) refl in
            subst After (sym out) (left-Stays w.db refl (inr (inl no_config)))
        | inl config ↦
            let out : made ≡ (none, path ∷ w.disk) = rw (init, config) refl in
            subst After (sym out) recorded-Stays
      ]
    ]

make-Stays :
    (os : Os) (root owner name : String) (w : World)
    → IsStocked w
    → Stays os (repository_path root owner name) w (make os root owner name w).1
unfolding make
make-Stays os root owner name w h =
    let path = repository_path root owner name in
    let stays = unchanged-Stays os owner name path w h in
    elim (Bool-cases (os.mkdir_works (owner_directory root owner))) [
      | inr no_directory ↦ rw no_directory stays
      | inl directory ↦ elim (Bool-cases (os.stat_works path)) [
        | inr no_stat ↦ rw (directory, no_stat) stays
        | inl stat ↦ elim (Bool-cases (on_disk path w.disk)) [
          | inl there ↦ rw (directory, stat, there) stays
          | inr absent ↦
              rw (directory, stat, absent) (initialized-Stays os owner name path w h absent)
        ]
      ]
    ]

-- Whatever the input, whichever calls of the operating system fail, and under any outage of the
-- database, Create leads from tables where every repository has its directory and no owner has two
-- repositories of one name to such tables again; and a directory without a row afterwards was one
-- before, or is that of the new repository, left behind by a failing `git init`, by a failing
-- `git config`, or by a failing removal.
pub create-Stays :
    (os : Os) (root : String) (input : CreateInput) (w : World)
    → IsStocked w
    → Stays os (repository_path root input.owner input.name) w (create os root input w).1
unfolding create
create-Stays os root input w h =
    let stays = unchanged-Stays os input.owner input.name _ w h in
    elim (Bool-cases (valid_name input.owner)) [
      | inr bad ↦ rw bad stays
      | inl good ↦ elim (Bool-cases (valid_name input.name)) [
        | inr bad ↦ rw (good, bad) stays
        | inl fine ↦ rw (good, fine) (make-Stays os root input.owner input.name w h)
      ]
    ]
