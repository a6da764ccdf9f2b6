-- ===== src/Secrets/Sealing.antt =====
-- What a stored secret gives back, and what the list of secrets does not show.
use git_castle.Prelude.{
  sym, ◌==◌, ◌&&◌, length, find?-none-any, eq_refl, find?-append_none, eqb_refl, find?-append_other,
  find?-sat, ◌∙◌, refl, none, find?-update, revise, inr, eq_iff, ap, [], ◌∷◌, some, inl, false≢true,
  arith, ◌++◌, true, false, Bool-cases, ◌≡◌, filter, Option, update, if◌then◌else◌, eqb, find?, any,
  List, String, ℕ,
}
use git_castle.Secrets.Types.{SecretRow}
use git_castle.Secrets.Store.{
  opened, decrypt, put_secret, is_key_size, list_secrets, set_secret, get_secret, Aead, resealed,
  is_secret, secrets_of, sealed_in,
}
use git_castle.Errors.{plain, err, Result, ok}
use git_castle.Db.{later, down, Db}
use git_castle.Exec.{◌>>◌, statement_up, statement, resume}
use git_castle.Prelude.Order.{less, sort_by}

abbrev sealed_row : ℕ → String → String → String → ℕ → SecretRow
sealed_row repo name ciphertext nonce now = record {
  repository_id = repo;
  name = name;
  ciphertext = ciphertext;
  nonce = nonce;
  created_at = now;
}

-- The rows after Set
abbrev sealed_rows : ℕ → String → String → String → ℕ → List SecretRow → List SecretRow
sealed_rows repo name ciphertext nonce now rows =
    if any (is_secret repo name) rows
    then update (is_secret repo name) (resealed ciphertext nonce) rows
    else rows ++ sealed_row repo name ciphertext nonce now ∷ []

module _ (repo : ℕ) (name ciphertext nonce : String) (now : ℕ) where
  find-resealed :
      (rows : List SecretRow)
      → any (is_secret repo name) rows ≡ true
      → sealed_in (
          find?
            (is_secret repo name)
            (update (is_secret repo name) (resealed ciphertext nonce) rows))
        ≡ ok (ciphertext, nonce)
  unfolding any find? update
  find-resealed [] h = absurd (false≢true h)
  find-resealed (row ∷ rows) h = elim (Bool-cases (is_secret repo name row)) [
    | inl e ↦ rw (e, e) refl
    | inr e ↦ rw (e, e) (find-resealed rows (rw e at h))
  ]

  here :
      sealed_in (find? (is_secret repo name) (sealed_row repo name ciphertext nonce now ∷ []))
      ≡ ok (ciphertext, nonce)
  unfolding find?
  here = rw (eqb_refl, eq_refl) refl

  find-sealed :
      (rows : List SecretRow)
      → sealed_in (find? (is_secret repo name) (sealed_rows repo name ciphertext nonce now rows))
        ≡ ok (ciphertext, nonce)
  find-sealed rows = elim (Bool-cases (any (is_secret repo name) rows)) [
    | inl h ↦ rw h (find-resealed rows h)
    | inr h ↦ rw h (
        ap sealed_in (
          find?-append_none (is_secret repo name) rows _
            (find?-none-any (is_secret repo name) rows h))
        ∙ here)
  ]

  not_both :
      (repo' : ℕ) (name' : String) (row : SecretRow)
      → is_secret repo' name' (sealed_row repo name ciphertext nonce now) ≡ false
      → is_secret repo' name' row ≡ true
      → is_secret repo name row ≡ false
  not_both repo' name' row h k = grind (arith, eq_iff)

  find-resealed_other :
      (repo' : ℕ) (name' : String) (found : Option SecretRow)
      → is_secret repo' name' (sealed_row repo name ciphertext nonce now) ≡ false
      → ((row : SecretRow) → found ≡ some row → is_secret repo' name' row ≡ true)
      → sealed_in (revise (is_secret repo name) (resealed ciphertext nonce) found) ≡ sealed_in found
  find-resealed_other repo' name' none h sat = refl
  find-resealed_other repo' name' (some row) h sat =
      rw (not_both repo' name' row h (sat row refl)) refl

  find-sealed_other :
      (repo' : ℕ) (name' : String) (rows : List SecretRow)
      → is_secret repo' name' (sealed_row repo name ciphertext nonce now) ≡ false
      → sealed_in (find? (is_secret repo' name') (sealed_rows repo name ciphertext nonce now rows))
        ≡ sealed_in (find? (is_secret repo' name') rows)
  find-sealed_other repo' name' rows h = elim (Bool-cases (any (is_secret repo name) rows)) [
    | inl e ↦ rw e (
        ap sealed_in (
          find?-update (is_secret repo' name') (is_secret repo name) (resealed ciphertext nonce)
            rows λ row k. refl)
        ∙ find-resealed_other repo' name' (find? (is_secret repo' name') rows) h
            (find?-sat (is_secret repo' name') rows))
    | inr e ↦ rw e (ap sealed_in (find?-append_other (is_secret repo' name') rows _ h))
  ]

  -- The list of secrets is the same for any other value.
  listed-resealed :
      (ciphertext' nonce' : String) (repo' : ℕ) (rows : List SecretRow)
      → secrets_of repo' (update (is_secret repo name) (resealed ciphertext nonce) rows)
        ≡ secrets_of repo' (update (is_secret repo name) (resealed ciphertext' nonce') rows)
  unfolding filter update
  listed-resealed ciphertext' nonce' repo' [] = refl
  listed-resealed ciphertext' nonce' repo' (row ∷ rows) =
      ground (arith, listed-resealed ciphertext' nonce' repo' rows)

  listed-added :
      (ciphertext' nonce' : String) (repo' : ℕ) (rows : List SecretRow)
      → secrets_of repo' (rows ++ sealed_row repo name ciphertext nonce now ∷ [])
        ≡ secrets_of repo' (rows ++ sealed_row repo name ciphertext' nonce' now ∷ [])
  unfolding filter
  listed-added ciphertext' nonce' repo' [] = ground arith
  listed-added ciphertext' nonce' repo' (row ∷ rows) =
      ground (arith, listed-added ciphertext' nonce' repo' rows)

  listed-sealed :
      (ciphertext' nonce' : String) (repo' : ℕ) (rows : List SecretRow)
      → secrets_of repo' (sealed_rows repo name ciphertext nonce now rows)
        ≡ secrets_of repo' (sealed_rows repo name ciphertext' nonce' now rows)
  listed-sealed ciphertext' nonce' repo' rows = elim (Bool-cases (any (is_secret repo name) rows)) [
    | inl h ↦ rw h (listed-resealed ciphertext' nonce' repo' rows)
    | inr h ↦ rw h (listed-added ciphertext' nonce' repo' rows)
  ]

abbrev value_of : Aead → List ℕ → Result (String × String) → Result String
value_of aead key (err e) = err e
value_of aead key (ok (ciphertext, nonce)) =
    if is_key_size (length key)
    then opened (aead.unseal key nonce ciphertext)
    else err (plain "crypto/aes: invalid key size")

resume-decrypt :
    (aead : Aead) (key : List ℕ) (r : Result (String × String)) (s : Db)
    → (resume (r, s) λ sealed. decrypt aead key sealed.0 sealed.1).0 ≡ value_of aead key r
resume-decrypt aead key (err e) s = refl
resume-decrypt aead key (ok (ciphertext, nonce)) s = elim (Bool-cases (is_key_size (length key))) [
  | inl h ↦ rw h refl
  | inr h ↦ rw h refl
]

get_secret_up :
    (aead : Aead) (key : List ℕ) (repo : ℕ) (name : String) (s : Db)
    → s.outages ≡ []
    → (get_secret aead key repo name s).0
      ≡ value_of aead key (sealed_in (find? (is_secret repo name) s.secrets))
unfolding get_secret
get_secret_up aead key repo name s up =
    rw
      (statement_up "load secret" (λ s. (sealed_in (find? (is_secret repo name) s.secrets), s)) s
        up)
      (resume-decrypt aead key (sealed_in (find? (is_secret repo name) s.secrets)) s)

module _ (aead : Aead) (key : List ℕ) (nonce : String) (repo : ℕ) (name value : String)
    (s : Db) where
  abbrev with_sealed : Db
  with_sealed = record s {
    secrets = sealed_rows repo name (aead.seal key nonce value) nonce s.clock s.secrets;
  }

  set_secret_up :
      s.outages ≡ []
      → is_key_size (length key) ≡ true
      → set_secret aead key (some nonce) repo name value s ≡ (ok tt, with_sealed)
  unfolding set_secret put_secret
  set_secret_up up sized =
      rw sized
        (statement_up "store secret" (put_secret repo name (aead.seal key nonce value) nonce) s up)

  -- Without outages, with a key of a length that AES has and a nonce under which the key opens what
  -- it sealed, Set works: Get of the same repository and name then returns the value, and Get of any
  -- other repository or name answers as before.
  pub set_secret-get_secret :
      s.outages ≡ []
      → is_key_size (length key) ≡ true
      → aead.unseal key nonce (aead.seal key nonce value) ≡ some value
      → let (r, t) = set_secret aead key (some nonce) repo name value s in
        (r ≡ ok tt)
        × ((get_secret aead key repo name t).0 ≡ ok value)
        × ((repo' : ℕ) (name' : String)
            → (eqb repo repo' && name == name') ≡ false
            → (get_secret aead key repo' name' t).0 ≡ (get_secret aead key repo' name' s).0)
  set_secret-get_secret up sized opens = rw (set_secret_up up sized) (
    refl,
    get_secret_up aead key repo name with_sealed up
        ∙ ap (value_of aead key)
            (find-sealed repo name (aead.seal key nonce value) nonce s.clock s.secrets)
        ∙ rw (sized, opens) refl,
    λ repo' name' other.
        get_secret_up aead key repo' name' with_sealed up
        ∙ ap (value_of aead key) (
            find-sealed_other repo name (aead.seal key nonce value) nonce s.clock repo' name'
              s.secrets other)
        ∙ sym (get_secret_up aead key repo' name' s up),
  )

-- What List answers after Set does not depend on the value that was stored, nor on the nonce,
-- whatever statements fail.
pub list_secrets_hides :
    (aead : Aead) (key : List ℕ) (nonce nonce' : String) (repo repo' : ℕ)
    (name value value' : String) (s : Db)
    → ((set_secret aead key (some nonce) repo name value >> list_secrets repo') s).0
      ≡ ((set_secret aead key (some nonce') repo name value' >> list_secrets repo') s).0
unfolding set_secret list_secrets statement put_secret
list_secrets_hides aead key nonce nonce' repo repo' name value value' s =
    elim (Bool-cases (is_key_size (length key))) [
      | inr h ↦ rw h refl
      | inl h ↦ rw h (elim (Bool-cases (down s.outages)) [
        | inl d ↦ rw d refl
        | inr d ↦ rw d (elim (Bool-cases (down (later s.outages))) [
          | inl e ↦ rw e refl
          | inr e ↦ rw e (
              ap (λ rows. ok (sort_by (λ a b. less a.name b.name) rows))
                (listed-sealed repo name (aead.seal key nonce value) nonce s.clock
                  (aead.seal key nonce' value') nonce' repo' s.secrets))
        ])
      ])
    ]
