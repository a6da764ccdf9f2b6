-- ===== src/Tests/Scanning.antt =====
-- Witnesses for internal/scanning.
use git_castle.Prelude.{[], ◌≡◌, ◌∷◌, if◌then◌else◌, refl}
use git_castle.Prelude.Text.{has_prefix, rune_count}
use git_castle.Scanning.Scanner.{redact, take_runes, Rule}
use git_castle.Scanning.Redaction.{redact_hides}

redact_hides_example : redact "AKIA00000001" ≡ redact "AKIA00999999"
unfolding rune_count take_runes
redact_hides_example = redact_hides "AKIA00000001" "AKIA00999999" refl (λ _. refl)

abbrev rule : Rule
rule = record {
  id = "marker";
  find_all = λ text. if has_prefix text "key" then "key" ∷ [] else [];
  description = "a marker";
}
