-- ===== src/Automation/Quoting.antt =====
-- The shell reads what quoteShell quotes as one word, the value itself.
use git_castle.Automation.Hook.{quote_shell, escape_quotes}
use git_castle.Prelude.{
  if◌then◌else◌, sym, ap, arith, refl, inr, true, inl, ◌||◌, eqb, ◌&&◌, none, Bool-cases, some, leb,
  ◌≡◌, Option, Bool, ℕ, String,
}
use git_castle.Prelude.Text.{append}
use text.Mathlib.TextLemmas.{append_assoc, nil-append, cons-append}
use Prim.Native.Char.{Char, code}
use text.Mathlib.TextEquality.{Char-path}

-- What a POSIX shell makes of a text that is one word: outside of single quotes a backslash keeps the
-- next character, a quote opens a quotation, and a character that ends a word or means something to
-- the shell is refused; within a quotation every character up to the next quote is kept.
pub data Reading : Type 0 where
  outside quoted kept : Reading

abbrev is_plain_char : ℕ → Bool
is_plain_char c =
    leb b'a' c && leb c b'z'
    || leb b'A' c && leb c b'Z'
    || leb b'0' c && leb c b'9'
    || eqb c b'/'
    || eqb c b'.'
    || eqb c b'-'
    || eqb c b'_'

abbrev keep_char : Char → Option String → Option String
keep_char c none = none
keep_char c (some rest) = some (String.◌∷◌ c rest)

pub read_word : Reading → String → Option String
read_word outside String.[] = some ""
read_word quoted String.[] = none
read_word kept String.[] = none
read_word outside (String.◌∷◌ c rest) =
    let quotation = read_word quoted rest in
    let escape = read_word kept rest in
    let more = keep_char c (read_word outside rest) in
    if eqb (code c) b'\''
    then quotation
    else if eqb (code c) b'\\'
    then escape
    else if is_plain_char (code c)
    then more
    else none
read_word quoted (String.◌∷◌ c rest) =
    let after = read_word outside rest in
    let more = keep_char c (read_word quoted rest) in if eqb (code c) b'\'' then after else more
read_word kept (String.◌∷◌ c rest) = keep_char c (read_word outside rest)

quote_char : (c : Char) → eqb (code c) b'\'' ≡ true → c ≡ "'"
quote_char c h = Char-path c "'" (ground arith)

read-escaped : (value : String) → read_word quoted (append (escape_quotes value) "'") ≡ some value
unfolding read_word escape_quotes
read-escaped String.[] = refl
read-escaped (String.◌∷◌ c value) = elim (Bool-cases (eqb (code c) b'\'')) [
  | inl h ↦ rw h (
      rw (append_assoc, cons-append, cons-append, cons-append, cons-append, nil-append)
        (rw (read-escaped value) (ap (λ d. some (String.◌∷◌ d value)) (sym (quote_char c h)))))
  | inr h ↦ rw h (rw (cons-append c (escape_quotes value) "'") (rw (h, read-escaped value) refl))
]

-- A POSIX shell reads what quoteShell returns as one word, and that word is the value, whatever
-- quotes, spaces or other characters are in it.
pub quote_shell-read_word : (value : String) → read_word outside (quote_shell value) ≡ some value
unfolding quote_shell read_word
quote_shell-read_word value = rw (cons-append, nil-append) (read-escaped value)
