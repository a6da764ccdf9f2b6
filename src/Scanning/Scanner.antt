-- ===== src/Scanning/Scanner.antt =====
-- internal/scanning/scanner.go. A rule's regular expression is the function that FindAllString is.
use git_castle.Prelude.{
  ◌-◌, not, min, ◌==◌, ◌++◌, ◌&&◌, leb, zero, if◌then◌else◌, any, [], ◌∷◌, suc, Bool, ℕ, String,
  List,
}
use git_castle.Prelude.Text.{trim_prefix, has_prefix, append, split, rune_count}

pub record Rule : Type 0 where
  pub id : String
  pub find_all : String → List String
  pub description : String

pub record Finding : Type 0 where
  pub rule_id : String
  pub description : String
  pub preview : String

unfoldable pub take_runes : ℕ → String → String
take_runes zero s = ""
take_runes (suc n) String.[] = ""
take_runes (suc n) (String.◌∷◌ c s) = String.◌∷◌ c (take_runes n s)

-- strings.Repeat of one text
pub repeat : ℕ → String → String
repeat zero s = ""
repeat (suc n) s = append s (repeat n s)

abbrev pub max_visible : ℕ
max_visible = 6

-- redact
unfoldable pub redact : String → String
redact text =
    let n = rune_count text in
    if leb n max_visible
    then repeat n "*"
    else append (take_runes max_visible text) (append (repeat (min (n - max_visible) 12) "*") "…")

abbrev finding_of : Rule → String → Finding
finding_of rule text = record {
  rule_id = rule.id;
  description = rule.description;
  preview = redact text;
}

abbrev pub is_seen : String → List String → Bool
is_seen text seen = any (λ t. t == text) seen

-- The inner loop: each match once.
pub findings_of : Rule → List String → List String → List Finding
findings_of rule seen [] = []
findings_of rule seen (text ∷ rest) =
    let later = findings_of rule (text ∷ seen) rest in
    if is_seen text seen then findings_of rule seen rest else finding_of rule text ∷ later

-- ScanText
pub scan_text : List Rule → String → List Finding
scan_text [] content = []
scan_text (rule ∷ rules) content =
    findings_of rule [] (rule.find_all content) ++ scan_text rules content

abbrev pub is_added : String → Bool
is_added line = has_prefix line "+" && not (has_prefix line "+++")

-- The added lines without their sign, each with a line break
unfoldable pub added_lines : List String → String
added_lines [] = ""
added_lines (line ∷ rest) =
    let later = added_lines rest in
    if is_added line then append (trim_prefix line "+") (append "\n" later) else later

-- ScanPatch
unfoldable pub scan_patch : List Rule → String → List Finding
scan_patch rules patch =
    let added = added_lines (split b'\n' patch) in if added == "" then [] else scan_text rules added
