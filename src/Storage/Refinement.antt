-- ===== src/Storage/Refinement.antt =====
-- LocalStore of internal/storage against the contract of ObjectStore.
use git_castle.Errors.{plain, err, object_not_found, ok, failed}
use git_castle.Prelude.{
  refl, ◌++◌, any, ◌⊎◌, All, find?-delete_ne, find?, subst, inr, find?-none-any, find?-delete, sym,
  inl, delete, Bool-cases, true, Bool, ap, false≢true, some, none, false, ◌≢◌, ◌≡◌, ◌∷◌, ◌∙◌, [],
  Option, List, String,
}
use git_castle.Storage.Files.{
  fails, works, fault, fails_after, is_empty, blocked, after_call, is_directory, guarded, content,
  Fault, write_file, unlink, system_call, rename, at_path, remove_path, read_file, is_file, File,
  Volume,
}
use git_castle.Storage.Paths.{clean, is_nul, parent, temporary, same_path, object_path, FilePath}
use git_castle.Storage.Calls.{
  write_file-Works, rename-Works, mkdir_all-Works, Renamed, is_temporary,
}
use git_castle.Storage.Local.{then_do, put_at, answer, delete_object, get_object, put_object}
use git_castle.Storage.Objects.{at-other, path_eq, bytes_of, object_at}
use git_castle.Prelude.Text.{contains_text, any_char}
use git_castle.Storage.Contract.{
  Objects, stored, forgotten, ObjectOp, put, get, remove, quiet, given, perform, refused, has_put,
  has_got, has_removed, none_to_get, none_to_remove, Trace, ended, goes_on, answers, Agree,
  IsOrdinary, Step,
}

not_missing : (context : String) → failed context ≢ object_not_found
not_missing context h =
    false≢true (ap (λ e. elim e as (λ _. Bool) [ object_not_found ↦ true | _ ↦ false ]) h)

module _ (root : FilePath) (o : Objects) where
  failed-Step :
      (context : String) (op : ObjectOp) (w : Volume)
      → Agree o w
      → Step root o op (err (failed context), w)
  failed-Step context op w agree = (o, refused op (failed context) (not_missing context), agree)

  module _ (key : String) (p : FilePath) (at : object_path root key ≡ ok p)
      (plain : is_temporary p ≡ false) where
    committed :
        (text : String) (w : Volume)
        → Agree o w
        → object_at (temporary p) w ≡ some text
        → (u : Volume) → Renamed p plain w u
        → Agree (stored p text o) u
    committed text w agree holds u (here, others) q ordinary = elim (Bool-cases (same_path q p)) [
      | inl h ↦ rw h (ap (λ r. object_at r u) (path_eq q p h) ∙ here ∙ holds)
      | inr h ↦ rw h (others q ordinary h ∙ agree q ordinary)
    ]

    commit-Step :
        (text : String) (w : Volume)
        → Agree o w
        → object_at (temporary p) w ≡ some text
        → Step root o
            (put key text)
            (quiet (then_do "commit object" (rename (temporary p) p) (λ _ v. (ok tt, v)) w))
    commit-Step text w agree holds = elim (rename-Works p plain w) [
      | inr (u, e, same) ↦
          rw e (failed-Step "commit object" (put key text) u λ q ord. same q ord ∙ agree q ord)
      | inl (u, e, renamed) ↦
          rw e (stored p text o, has_put key text p at, committed text w agree holds u renamed)
    ]

    write-Step :
        (text : String) (w : Volume)
        → Agree o w
        → Step root o (put key text) (
            quiet (
              then_do "write object"
                (write_file (temporary p) text)
                (λ _. then_do "commit object" (rename (temporary p) p) λ _ v. (ok tt, v))
                w))
    write-Step text w agree = elim (write_file-Works p text w) [
      | inr (u, e, same) ↦
          rw e (failed-Step "write object" (put key text) u λ q ord. same q ord ∙ agree q ord)
      | inl (u, e, (holds, same)) ↦
          rw e (commit-Step text u (λ q ord. same q ord ∙ agree q ord) holds)
    ]

    put-Step :
        (text : String) (v : Volume)
        → Agree o v
        → Step root o (put key text) (quiet (put_at p text v))
    put-Step text v agree = elim (mkdir_all-Works (parent p) v) [
      | inr (u, e, same) ↦
          rw e (failed-Step "create object dir" (put key text) u λ q ord. same q ord ∙ agree q ord)
      | inl (u, e, same) ↦ rw e (write-Step text u λ q ord. same q ord ∙ agree q ord)
    ]

    content-Step :
        (w : Volume) (found : Option File)
        → Agree o w
        → o p ≡ bytes_of found
        → Step root o (get key) (given (answer "read object" (content p w found, w)))
    content-Step w (some file) agree h = (o, has_got key file.bytes p at h, agree)
    content-Step w none agree h =
        let failure = failed-Step "read object" (get key) w agree in
        elim (Bool-cases (is_directory p w)) [
          | inl d ↦ rw d failure
          | inr d ↦ rw d (elim (Bool-cases (blocked p w)) [
            | inl b ↦ rw b failure
            | inr b ↦ rw b (o, none_to_get key p at h, agree)
          ])
        ]

    get-Step :
        (v : Volume)
        → Agree o v
        → Step root o (get key) (given (answer "read object" (read_file p v)))
    unfolding read_file system_call object_at
    get-Step v agree = go (fault v.faults)
      where
        go :
            (f : Fault)
            → Step root o (get key) (
                given (
                  answer "read object"
                    (guarded f (λ v. (content p v (find? (at_path p) v.files), v)) (after_call v))))
        go works =
            content-Step (after_call v) (find? (at_path p) v.files) agree (sym (agree p plain))
        go fails = failed-Step "read object" (get key) (after_call v) agree
        go (fails_after part) = failed-Step "read object" (get key) (after_call v) agree

    unlinked :
        (v : Volume)
        → Agree o v
        → Agree (forgotten p o) (record v { files = delete (at_path p) v.files })
    unfolding object_at
    unlinked v agree q ordinary = elim (Bool-cases (same_path q p)) [
      | inl h ↦ rw h (
          ap bytes_of (
            find?-delete (at_path q) (at_path p) v.files
              λ f at. subst (λ r. same_path f.path r ≡ true) (path_eq q p h) at))
      | inr h ↦ rw h (
          ap bytes_of (find?-delete_ne (at_path q) (at_path p) v.files λ f at. at-other p q f h at)
          ∙ agree q ordinary)
    ]

    no_file : (v : Volume) → Agree o v → is_file p v ≡ false → o p ≡ none
    unfolding object_at is_file
    no_file v agree h = sym (agree p plain) ∙ ap bytes_of (find?-none-any (at_path p) v.files h)

    nothing_to_forget : o p ≡ none → (v : Volume) → Agree o v → Agree (forgotten p o) v
    nothing_to_forget h v agree q ordinary = elim (Bool-cases (same_path q p)) [
      | inl e ↦ rw e (agree q ordinary ∙ ap o (path_eq q p e) ∙ h)
      | inr e ↦ rw e (agree q ordinary)
    ]

    unlink-Step :
        (v : Volume)
        → Agree o v
        → Step root o (remove key) (quiet (answer "delete object" (unlink p v)))
    unfolding object_at
    unlink-Step v agree =
        let failure = failed-Step "delete object" (remove key) v agree in
        elim (Bool-cases (is_file p v)) [
          | inl h ↦ rw h (forgotten p o, has_removed key p at, unlinked v agree)
          | inr h ↦ rw h (elim (Bool-cases (is_directory p v)) [
            | inl d ↦ rw d (elim (Bool-cases (is_empty p v)) [
              | inl e ↦ rw e (
                forgotten p o,
                has_removed key p at,
                nothing_to_forget (no_file v agree h) v agree,
              )
              | inr e ↦ rw e failure
            ])
            | inr d ↦ rw d (elim (Bool-cases (blocked p v)) [
              | inl b ↦ rw b failure
              | inr b ↦ rw b (o, none_to_remove key p at (no_file v agree h), agree)
            ])
          ])
        ]

    remove-Step :
        (v : Volume)
        → Agree o v
        → Step root o (remove key) (quiet (answer "delete object" (remove_path p v)))
    unfolding remove_path system_call object_at
    remove-Step v agree = go (fault v.faults)
      where
        go :
            (f : Fault)
            → Step root o
                (remove key)
                (quiet (answer "delete object" (guarded f (unlink p) (after_call v))))
        go works = unlink-Step (after_call v) agree
        go fails = failed-Step "delete object" (remove key) (after_call v) agree
        go (fails_after part) = failed-Step "delete object" (remove key) (after_call v) agree

  not_absent : (text : String) → plain text ≢ object_not_found
  not_absent text h =
      false≢true (ap (λ e. elim e as (λ _. Bool) [ object_not_found ↦ true | _ ↦ false ]) h)

  object_path-cases :
      (key : String)
      → ((p : FilePath) × (object_path root key ≡ ok p))
        ⊎ ((text : String) × (object_path root key ≡ err (plain text)))
  unfolding object_path
  object_path-cases key = elim (Bool-cases (any_char is_nul key)) [
    | inl n ↦ rw n (inr ("invalid object key", refl))
    | inr n ↦ rw n (elim (Bool-cases (any (λ name. contains_text name "..") (clean key))) [
      | inl d ↦ rw d (inr ("object key escapes storage root", refl))
      | inr d ↦ rw d (inl (clean key ++ root, refl))
    ])
  ]

  perform-Step :
      (op : ObjectOp) (v : Volume)
      → IsOrdinary root op
      → Agree o v
      → Step root o op (perform root op v)
  unfolding perform put_object get_object delete_object
  perform-Step (put key text) v ordinary agree = elim (object_path-cases key) [
    | inl (p, at) ↦ rw at (put-Step key p at (ordinary p at) text v agree)
    | inr (t, at) ↦ rw at (o, refused (put key text) (plain t) (not_absent t), agree)
  ]
  perform-Step (get key) v ordinary agree = elim (object_path-cases key) [
    | inl (p, at) ↦ rw at (get-Step key p at (ordinary p at) v agree)
    | inr (t, at) ↦ rw at (o, refused (get key) (plain t) (not_absent t), agree)
  ]
  perform-Step (remove key) v ordinary agree = elim (object_path-cases key) [
    | inl (p, at) ↦ rw at (remove-Step key p at (ordinary p at) v agree)
    | inr (t, at) ↦ rw at (o, refused (remove key) (plain t) (not_absent t), agree)
  ]

-- Whatever calls of the operating system fail, a partly written file included, the answers of
-- LocalStore to a sequence of Put, Get and Delete are those of a map from paths to texts: a Put that
-- returns no error sets its object, any error leaves every object as it was, Get returns what the
-- map holds, and "not found" is said only where the map holds nothing. No key may name a file whose
-- name ends in ".tmp".
pub answers-Trace :
    (root : FilePath) (ops : List ObjectOp) (o : Objects) (v : Volume)
    → All (IsOrdinary root) ops
    → Agree o v
    → Trace root o ops (answers root ops v)
unfolding answers
answers-Trace root [] o v ordinary agree = ended o
answers-Trace root (op ∷ ops) o v (first, ordinary) agree =
    let (r, w) = perform root op v in
    let (o', allowed, agree') = perform-Step root o op v first agree in
    goes_on o o' op ops r (answers root ops w) allowed (answers-Trace root ops o' w ordinary agree')
