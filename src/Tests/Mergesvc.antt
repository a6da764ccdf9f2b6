-- ===== src/Tests/Mergesvc.antt =====
-- Witnesses for internal/mergesvc.
use git_castle.Mergesvc.Service.{merge_message, merge_args, merge_pr, MergeService, Machine}
use git_castle.Prelude.{
  refl, inr, [], inl, ◌==◌, if◌then◌else◌, Bool-cases, ◌⊎◌, ◌∷◌, ◌≡◌, false, String, List,
}
use git_castle.Gitdata.Repo.{fails_with, printed, Ran}
use git_castle.Mergesvc.Kept.{merge_pr-Kept, is_push}

-- The state is the commit of the target branch: a push moves it, and a merge meets a conflict.
abbrev run : List String → String → Ran × String
run [] w = (printed "", w)
run (command ∷ rest) w =
    if command == "push"
    then (printed "", "c0ffee")
    else if command == "merge"
    then (fails_with "CONFLICT", w)
    else (printed "", w)

abbrev conflicting : Machine String
conflicting = record { git = λ call w. run call.args w; remove_all = λ work w. w }

abbrev service : MergeService
service = record {
  root = "/srv/git";
  has_events = false;
  committer = record { name = ""; email = "" };
  temp_dir = "/tmp";
  pid = "7";
}

run-quiet :
    (args : List String) (w : String) → is_push args ≡ false → w ≡ "old" → (run args w).1 ≡ "old"
run-quiet [] w quiet h = h
run-quiet (command ∷ rest) w quiet h = elim (Bool-cases (command == "merge")) [
  | inl m ↦ rw (quiet, m) h
  | inr m ↦ rw (quiet, m) h
]

merge_pr-Kept_example :
    let (r, t) = merge_pr conflicting service "alice" "castle" 1 "moat" "main" "bob" "old" in
    ((u : String) × (t ≡ u))
    × ((t ≡ "old")
        ⊎ ((before after : String) × (text : String) × (run
                (merge_args (merge_message 1 "alice" "moat" "bob") "moat")
                before
              ≡ (printed text, after))))
merge_pr-Kept_example =
    merge_pr-Kept conflicting service (λ w. w ≡ "old")
      (λ call w quiet h. run-quiet call.args w quiet h) (λ work w h. h) "alice" "castle" 1 "moat"
      "main" "bob" "old" refl
