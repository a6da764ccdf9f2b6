-- ===== src/Secrets/Store.antt =====
-- Store of internal/secrets/secrets.go. AES-GCM is a parameter, and so is the nonce that the random
-- source gives; the collation of `ORDER BY name` is taken to be that of the code points.
use git_castle.Prelude.{
  [], ◌∷◌, ◌++◌, none, delete, ◌==◌, update, some, ◌||◌, ◌&&◌, length, find?, filter, any,
  if◌then◌else◌, eqb, Bool, ℕ, String, Option, List,
}
use git_castle.Secrets.Types.{Secret, SecretRow}
use git_castle.Errors.{plain, failed, ok, err, Result}
use git_castle.Exec.{◌>>=◌, statement, raise, Exec}
use mathlib.Core.List.{map}
use git_castle.Prelude.Order.{less, sort_by}

-- Seal and Open for a key and a nonce; `unseal` gives none for what was not sealed so.
pub record Aead : Type 0 where
  pub seal : List ℕ → String → String → String
  pub unseal : List ℕ → String → String → Option String

-- NewStore: the key that the store keeps
unfoldable new_store : List ℕ → Result (List ℕ)
new_store key =
    if eqb (length key) 32 then ok key else err (plain "encryption key must be 32 bytes")

-- aes.NewCipher takes keys for AES-128, AES-192 and AES-256.
abbrev pub is_key_size : ℕ → Bool
is_key_size n = eqb n 16 || eqb n 24 || eqb n 32

-- Store.cipher
abbrev pub with_cipher : {A : Type 0} → List ℕ → Exec A → Exec A
with_cipher key next =
    if is_key_size (length key) then next else raise (plain "crypto/aes: invalid key size")

abbrev pub nonce_of : {A : Type 0} → Option String → (String → Exec A) → Exec A
nonce_of none f = raise (failed "generate nonce")
nonce_of (some nonce) f = f nonce

-- Store.encrypt
abbrev pub encrypt :
    {A : Type 0} → Aead → List ℕ → Option String → String → (String → String → Exec A) → Exec A
encrypt aead key random value f =
    with_cipher key (nonce_of random λ nonce. f (aead.seal key nonce value) nonce)

abbrev pub opened : Option String → Result String
opened none = err (failed "decrypt secret (wrong key?)")
opened (some text) = ok text

-- Store.decrypt
abbrev pub decrypt : Aead → List ℕ → String → String → Exec String
decrypt aead key ciphertext nonce =
    with_cipher key λ s. (opened (aead.unseal key nonce ciphertext), s)

abbrev pub is_secret : ℕ → String → SecretRow → Bool
is_secret repo name row = eqb row.repository_id repo && row.name == name

abbrev pub resealed : String → String → SecretRow → SecretRow
resealed ciphertext nonce row = record row { ciphertext = ciphertext; nonce = nonce }

-- INSERT … ON CONFLICT (repository_id, name) DO UPDATE
unfoldable pub put_secret : ℕ → String → String → String → Exec (Unit {0})
put_secret repo name ciphertext nonce s =
    let row : SecretRow = record {
      repository_id = repo;
      name = name;
      ciphertext = ciphertext;
      nonce = nonce;
      created_at = s.clock;
    } in
    (
      ok tt,
      record s {
        secrets =
            if any (is_secret repo name) s.secrets
            then update (is_secret repo name) (resealed ciphertext nonce) s.secrets
            else s.secrets ++ row ∷ [];
      },
    )

-- Set
unfoldable pub set_secret : Aead → List ℕ → Option String → ℕ → String → String → Exec (Unit {0})
set_secret aead key random repo name value =
    encrypt aead key random value
      λ ciphertext nonce. statement "store secret" (put_secret repo name ciphertext nonce)

abbrev pub sealed_in : Option SecretRow → Result (String × String)
sealed_in none = err (failed "load secret")
sealed_in (some row) = ok (row.ciphertext, row.nonce)

-- Get
unfoldable pub get_secret : Aead → List ℕ → ℕ → String → Exec String
get_secret aead key repo name =
    statement "load secret" (λ s. (sealed_in (find? (is_secret repo name) s.secrets), s))
    >>= λ sealed. decrypt aead key sealed.0 sealed.1

abbrev pub secret_of : SecretRow → Secret
secret_of row = record { name = row.name; created_at = row.created_at }

abbrev pub secrets_of : ℕ → List SecretRow → List Secret
secrets_of repo rows = map secret_of (filter (λ row. eqb row.repository_id repo) rows)

-- List
unfoldable pub list_secrets : ℕ → Exec (List Secret)
list_secrets repo =
    statement "list secrets"
      λ s. (ok (sort_by (λ a b. less a.name b.name) (secrets_of repo s.secrets)), s)

pub remove_secret : ℕ → String → Exec (Unit {0})
remove_secret repo name s = (
  if any (is_secret repo name) s.secrets then ok tt else err (plain "secret not found"),
  record s { secrets = delete (is_secret repo name) s.secrets },
)

-- Delete
pub delete_secret : ℕ → String → Exec (Unit {0})
delete_secret repo name = statement "delete secret" (remove_secret repo name)
