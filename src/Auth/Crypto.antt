-- ===== src/Auth/Crypto.antt =====
-- What internal/auth takes from bcrypt and SHA-256. Random bytes enter as arguments: the salt of a
-- hash and the session token.
use git_castle.Prelude.{◌==◌, none, true, some, ltb, Bool, ◌≡◌, if◌then◌else◌, Option, String}
use git_castle.Prelude.Text.{byte_length}

pub record Crypto : Type 0 where
  -- bcrypt.GenerateFromPassword, with its salt; none is an error, such as a password too long
  pub hash : (salt password : String) → Option String
  -- bcrypt.CompareHashAndPassword, true where it returns nil
  pub matches : (hash password : String) → Bool
  -- sha256Sum: the hex digits of the digest
  pub digest : String → String

-- A password matches the hash that was made of it.
abbrev pub HashMatches : Crypto → Type 0
HashMatches c =
    (salt password hash : String)
    → c.hash salt password ≡ some hash
    → c.matches hash password ≡ true

-- No two tokens with one digest are met.
abbrev pub DigestInjective : Crypto → Type 0
DigestInjective c = (a b : String) → c.digest a ≡ c.digest b → a ≡ b

-- A stand-in that meets both.
abbrev pub plain_crypto : Crypto
plain_crypto = record {
  hash = λ salt password. if ltb 72 (byte_length password) then none else some password;
  matches = λ hash password. hash == password;
  digest = λ token. token;
}
