-- ===== src/Scanning/Redaction.antt =====
-- What the reports of internal/scanning/scanner.go depend on.
use git_castle.Prelude.{arith, inr, leb, inl, Bool-cases, ◌∷◌, ◌<◌, ◌≡◌, String, refl}
use git_castle.Prelude.{◌∷◌}
use git_castle.Scanning.Scanner.{take_runes, redact, max_visible}
use git_castle.Prelude.Text.{rune_count}

-- A preview shows no more of a secret than its length and, where it is longer than six runes, its
-- first six: two secrets that agree in these have the same preview.
pub redact_hides :
    (a b : String)
    → rune_count a ≡ rune_count b
    → (max_visible < rune_count a → take_runes max_visible a ≡ take_runes max_visible b)
    → redact a ≡ redact b
unfolding redact
redact_hides a b same_length same_start = elim (Bool-cases (leb (rune_count a) max_visible)) [
  | inl short ↦ let short' = rw same_length at short in rw (short, short', same_length) refl
  | inr long ↦
      let long' = rw same_length at long in
      rw (long, long', same_start (ground arith), same_length) refl
]
