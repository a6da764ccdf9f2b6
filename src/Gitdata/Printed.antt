-- ===== src/Gitdata/Printed.antt =====
-- parseCommits against what `git log` prints for its format.
use git_castle.Gitdata.Commits.{commit_in, parse_commits, commits_in, commit_of, is_newline, Commit}
use git_castle.Prelude.{
  inr, eq_iff, inl, Bool-cases, ◌∙◌, none, false≢true, ◌==◌, sym, some, arith, refl, ap, true,
  false, ◌≡◌, filter, [], Bool, ◌∷◌, ℕ, All, String, List,
}
use git_castle.Prelude.Text.{
  trim_left, trim, split_n, split, end_with, cut_at, is_space, join_with, is_blank, append,
  trim_right, split_by, fields, any_char,
}
use git_castle.Prelude.Text.Laws.{split-whole, split-append, cut_at-append, is_char}
use text.Mathlib.TextLemmas.{append_assoc, append-nil, cons-append, nil-append}
use Prim.Native.Char.{Char, code}

abbrev pub nul : String
nul = "\0"

abbrev pub separator : String
separator = "\u{1e}"

-- A commit in the format, a line break after its message, and one after the record
abbrev pub text_of : Commit → String
text_of c = append c.hash (
    append nul (
      append c.author (
        append nul (
          append c.email (
            append nul (
              append c.date (
                append nul
                  (append (join_with " " c.parents) (append nul (append c.message "\n"))))))))))

pub log_of : List Commit → String
log_of [] = ""
log_of (c ∷ cs) = append (text_of c) (append separator (append "\n" (log_of cs)))

-- Neither of the two separators
abbrev pub IsFree : String → Type 0
IsFree text = (any_char (is_char 0) text ≡ false) × (any_char (is_char 0x1e) text ≡ false)

abbrev pub IsWord : String → Type 0
IsWord text = (is_blank text ≡ false) × (any_char is_space text ≡ false) × IsFree text

pub record IsPrintable (c : Commit) : Type 0 where
  pub hash : IsWord c.hash
  pub author : IsFree c.author
  pub email : IsFree c.email
  pub date : IsFree c.date
  pub parents : All IsWord c.parents
  pub message : IsFree c.message
  pub ended : trim_right is_newline c.message ≡ c.message

any_char-append :
    (p : ℕ → Bool) (a b : String)
    → any_char p a ≡ false
    → any_char p b ≡ false
    → any_char p (append a b) ≡ false
unfolding any_char
any_char-append p String.[] b h k = rw nil-append k
any_char-append p (String.◌∷◌ c a) b h k =
    rw (cons-append c a b) (ground (arith, any_char-append p a b, h, k))

any_char-join :
    (p : ℕ → Bool)
    → any_char p " " ≡ false
    → (words : List String) → All (λ w. any_char p w ≡ false) words
    → any_char p (join_with " " words) ≡ false
unfolding any_char join_with
any_char-join p blank [] h = refl
any_char-join p blank (w ∷ []) (h, _) = h
any_char-join p blank (w ∷ next ∷ words) (h, hs) =
    any_char-append p w _ h
      (any_char-append p " " _ blank (any_char-join p blank (next ∷ words) hs))

split_by-append :
    (p : ℕ → Bool) (w : String) (rest : String)
    → p b' ' ≡ true
    → any_char p w ≡ false
    → split_by p (append w (append " " rest)) ≡ w ∷ split_by p rest
unfolding split_by any_char
split_by-append p String.[] rest blank h = rw (nil-append, cons-append, nil-append) (rw blank refl)
split_by-append p (String.◌∷◌ c w) rest blank h =
    let here : p (code c) ≡ false = ground arith in
    let later : any_char p w ≡ false = ground arith in
    rw (cons-append c w (append " " rest), here, split_by-append p w rest blank later) refl

split_by-whole : (p : ℕ → Bool) (w : String) → any_char p w ≡ false → split_by p w ≡ w ∷ []
unfolding split_by any_char
split_by-whole p String.[] h = refl
split_by-whole p (String.◌∷◌ c w) h =
    let here : p (code c) ≡ false = ground arith in
    let later : any_char p w ≡ false = ground arith in rw (here, split_by-whole p w later) refl

fields-join : (words : List String) → All IsWord words → fields (join_with " " words) ≡ words
unfolding fields join_with filter split_by
fields-join [] h = refl
fields-join (w ∷ []) ((filled, single, _), _) = rw (split_by-whole is_space w single, filled) refl
fields-join (w ∷ next ∷ words) ((filled, single, _), hs) =
    rw (split_by-append is_space w (join_with " " (next ∷ words)) refl single, filled)
      (ap {A = List String} (λ ws. w ∷ ws) (fields-join (next ∷ words) hs))

trim_right-newline :
    (message : String) → trim_right is_newline (append message "\n") ≡ trim_right is_newline message
unfolding trim_right
trim_right-newline String.[] = refl
trim_right-newline (String.◌∷◌ c message) =
    rw (cons-append c message "\n") (ap (end_with is_newline c) (trim_right-newline message))

cut_at-nul :
    (a b : String)
    → any_char (is_char 0) a ≡ false
    → cut_at 0 (append a (append nul b)) ≡ some (a, b)
cut_at-nul a b h = rw (cons-append, nil-append) (cut_at-append 0 a _ b h refl)

words_free :
    (sep : ℕ)
    → (words : List String) → ((w : String) → IsWord w → any_char (is_char sep) w ≡ false)
    → All IsWord words
    → All (λ w. any_char (is_char sep) w ≡ false) words
words_free sep [] f h = tt
words_free sep (w ∷ words) f (first, h) = (f w first, words_free sep words f h)

nul_free : any_char (is_char 0x1e) nul ≡ false
unfolding any_char
nul_free = refl

newline_free : any_char (is_char 0x1e) "\n" ≡ false
unfolding any_char
newline_free = refl

module _ (c : Commit) (h : IsPrintable c) where
  parents-IsFree : IsFree (join_with " " c.parents)
  unfolding any_char
  parents-IsFree = (
    any_char-join (is_char 0) refl c.parents (words_free 0 c.parents (λ w f. f.2.0) h.parents),
    any_char-join (is_char 0x1e) refl c.parents
        (words_free 0x1e c.parents (λ w f. f.2.1) h.parents),
  )

  split_n-text_of :
      split_n 0 5 (text_of c)
      ≡ c.hash ∷ c.author ∷ c.email ∷ c.date ∷ join_with " " c.parents ∷ append c.message "\n" ∷ []
  unfolding split_n
  split_n-text_of =
      rw
        (
          cut_at-nul c.hash _ h.hash.2.0,
          cut_at-nul c.author _ h.author.0,
          cut_at-nul c.email _ h.email.0,
          cut_at-nul c.date _ h.date.0,
          cut_at-nul (join_with " " c.parents) _ parents-IsFree.0,
        )
        refl

  text_of-IsFree : any_char (is_char 0x1e) (text_of c) ≡ false
  text_of-IsFree =
      let p = is_char 0x1e in
      any_char-append p c.hash _ h.hash.2.1 (
        any_char-append p nul _ nul_free (
          any_char-append p c.author _ h.author.1 (
            any_char-append p nul _ nul_free (
              any_char-append p c.email _ h.email.1 (
                any_char-append p nul _ nul_free (
                  any_char-append p c.date _ h.date.1 (
                    any_char-append p nul _ nul_free (
                      any_char-append p (join_with " " c.parents) _ parents-IsFree.1 (
                        any_char-append p nul _ nul_free
                          (any_char-append p c.message "\n" h.message.1 newline_free))))))))))

  commit_of-parts :
      commit_of (
        c.hash ∷ c.author ∷ c.email ∷ c.date ∷ join_with " " c.parents ∷ append c.message "\n" ∷ [])
      ≡ some c
  commit_of-parts = rw (fields-join c.parents h.parents, trim_right-newline c.message, h.ended) refl

-- A text that begins with a character that is no white space
cons-filled : (c : Char) (s : String) → (String.◌∷◌ c s == "") ≡ false
cons-filled c s = elim (Bool-cases (String.◌∷◌ c s == "")) [
  | inl h ↦ absurd (false≢true (ap is_blank ((eq_iff (String.◌∷◌ c s) "").0 h)))
  | inr h ↦ h
]

end_with-filled :
    (p : ℕ → Bool) (c : Char) (r : String) → p (code c) ≡ false → (end_with p c r == "") ≡ false
end_with-filled p c String.[] h = rw h (cons-filled c "")
end_with-filled p c (String.◌∷◌ d r) h = cons-filled c (String.◌∷◌ d r)

trim-filled :
    (c : Char) (s : String)
    → is_space (code c) ≡ false
    → (trim is_space (String.◌∷◌ c s) == "") ≡ false
unfolding trim trim_left trim_right
trim-filled c s h = rw h (end_with-filled is_space c (trim_right is_space s) h)

trim_left-word :
    (word rest : String)
    → IsWord word
    → (trim_left is_newline (append word rest) ≡ append word rest)
      × ((trim is_space (append word rest) == "") ≡ false)
unfolding trim_left any_char
trim_left-word String.[] rest (filled, single, free) = absurd (false≢true (sym filled))
trim_left-word (String.◌∷◌ c word) rest (filled, single, free) =
    let here : is_space (code c) ≡ false = ground arith in
    let line : is_newline (code c) ≡ false = ground arith in
    rw (cons-append c word rest) (rw line refl, trim-filled c (append word rest) here)

-- A record, after the line break of the one before or not
commit_in-text_of :
    (before : String) (c : Commit)
    → ((s : String) → trim_left is_newline (append before s) ≡ trim_left is_newline s)
    → IsPrintable c
    → commit_in (append before (text_of c)) ≡ some c
commit_in-text_of before c skips h =
    let (kept, filled) = trim_left-word c.hash _ h.hash in
    rw (skips (text_of c) ∙ kept) (rw (filled, split_n-text_of c h) (commit_of-parts c h))

split_at-separator :
    (a b : String)
    → any_char (is_char 0x1e) a ≡ false
    → split 0x1e (append a (append separator b)) ≡ a ∷ split 0x1e b
split_at-separator a b h = rw (cons-append, nil-append) (split-append 0x1e a _ b h refl)

newline_blank : commit_in "\n" ≡ none
unfolding trim_left trim trim_right
newline_blank = refl

newline_skips : (s : String) → trim_left is_newline (append "\n" s) ≡ trim_left is_newline s
unfolding trim_left
newline_skips s = rw (cons-append, nil-append) refl

commits_in-log_of :
    (before : String) (cs : List Commit)
    → any_char (is_char 0x1e) before ≡ false
    → commit_in before ≡ none
    → ((s : String) → trim_left is_newline (append before s) ≡ trim_left is_newline s)
    → All IsPrintable cs
    → commits_in (split 0x1e (append before (log_of cs))) ≡ cs
unfolding commits_in log_of
commits_in-log_of before [] free blank skips h =
    rw (append-nil, split-whole 0x1e before free, blank) refl
commits_in-log_of before (c ∷ cs) free blank skips (first, h) =
    rw
      (
        sym (append_assoc before (text_of c) (append separator (append "\n" (log_of cs)))),
        split_at-separator (append before (text_of c)) (append "\n" (log_of cs))
            (any_char-append (is_char 0x1e) before (text_of c) free (text_of-IsFree c first)),
        commit_in-text_of before c skips first,
      )
      (ap {A = List Commit} (λ ds. c ∷ ds)
        (commits_in-log_of "\n" cs newline_free newline_blank newline_skips h))

-- parseCommits gives back the commits that `git log` printed in its format, in their order: for
-- commits whose hash and parents are words, whose fields hold neither of the two separators, and
-- whose message does not end in a line break.
pub parse_commits-log_of : (cs : List Commit) → All IsPrintable cs → parse_commits (log_of cs) ≡ cs
unfolding parse_commits any_char trim trim_left trim_right
parse_commits-log_of cs h =
    ap (λ s. commits_in (split 0x1e s)) (sym (nil-append (log_of cs)))
    ∙ commits_in-log_of "" cs refl refl (λ s. ap (trim_left is_newline) (nil-append s)) h
