-- ===== src/Tests/Secrets.antt =====
-- Witnesses for internal/secrets.
use git_castle.Db.{Db}
use git_castle.Prelude.{refl, false, ◌==◌, ◌&&◌, eqb, String, ◌≡◌, ◌∷◌, [], ℕ, some, List}
use git_castle.Prelude.Text.{append, cut_prefix}
use git_castle.Secrets.Store.{get_secret, list_secrets, set_secret, Aead}
use git_castle.Secrets.Types.{SecretRow}
use git_castle.Tests.Samples.{server}
use git_castle.Exec.{◌>>◌}
use git_castle.Errors.{ok}
use git_castle.Secrets.Sealing.{set_secret-get_secret, list_secrets_hides}

-- A cipher that writes the nonce in front
abbrev plain_aead : Aead
plain_aead = record {
  seal = λ key nonce text. append nonce text;
  unseal = λ key nonce text. cut_prefix nonce text;
}

abbrev key : List ℕ
key = 1 ∷ 2 ∷ 3 ∷ 4 ∷ 5 ∷ 6 ∷ 7 ∷ 8 ∷ 9 ∷ 10 ∷ 11 ∷ 12 ∷ 13 ∷ 14 ∷ 15 ∷ 16 ∷ []

abbrev token_row : SecretRow
token_row = record {
  repository_id = 1;
  name = "TOKEN";
  ciphertext = "n0old";
  nonce = "n0";
  created_at = 3;
}

abbrev tables : Db
tables = record (server "open" [] []) { secrets = token_row ∷ [] }

set_secret-get_secret_example :
    let (r, t) = set_secret plain_aead key (some "n1") 1 "TOKEN" "new" tables in
    (r ≡ ok tt)
    × ((get_secret plain_aead key 1 "TOKEN" t).0 ≡ ok "new")
    × ((repo' : ℕ) (name' : String)
        → (eqb 1 repo' && "TOKEN" == name') ≡ false
        → (get_secret plain_aead key repo' name' t).0
          ≡ (get_secret plain_aead key repo' name' tables).0)
unfolding cut_prefix
set_secret-get_secret_example =
    set_secret-get_secret plain_aead key "n1" 1 "TOKEN" "new" tables refl refl refl

list_secrets_hides_example :
    ((set_secret plain_aead key (some "n1") 1 "TOKEN" "new" >> list_secrets 1) tables).0
    ≡ ((set_secret plain_aead key (some "n2") 1 "TOKEN" "other" >> list_secrets 1) tables).0
list_secrets_hides_example =
    list_secrets_hides plain_aead key "n1" "n2" 1 1 "TOKEN" "new" "other" tables
