-- ===== src/Collab/Trace.antt =====
-- Every state-changing operation of internal/collab, and runs of them in any order, under any
-- outages of the database.
use git_castle.Prelude.{ℕ, ◌+◌, String, Bool, Option, none, some, List, [], ◌∷◌}
use git_castle.Db.{Db}
use git_castle.Exec.{
  Exec, Keeps, Keeps-raise, Keeps-pure, Keeps-bind, Keeps-if, Keeps-statement, statement,
}
use git_castle.Collab.Types.{PullRequest, BranchProtection}
use git_castle.Collab.Issues.{
  create_issue, set_issue_state, add_comment, insert_issue, update_issue, insert_comment,
}
use git_castle.Collab.Pulls.{
  create_pull_request, set_pull_request_state, get_pull_request, insert_pull, update_pull, refuse,
  returned,
}
use git_castle.Collab.Reviews.{upsert_review, put_review, resolve_id}
use git_castle.Collab.Protection.{
  set_branch_protection, delete_branch_protection, put_protection, remove_protection,
}

pub data Op : Type 0 where
  open_issue : (repo : ℕ) (author title body : String) → Op
  move_issue : (repo number : ℕ) (state : String) → Op
  comment : (repo : ℕ) (subject_type : String) (number : ℕ) (author body : String) → Op
  open_pull : (repo : ℕ) (author title body source target : String) → Op
  end_pull : (repo number : ℕ) (state merge_commit : String) → Op
  review : (repo number : ℕ) (reviewer verdict body : String) → Op
  protect : (repo : ℕ) → BranchProtection → Op
  unprotect : (repo : ℕ) (branch : String) → Op
  -- time passes; other outages of the database lie ahead
  wait : (seconds : ℕ) → Op
  fail : (outages : List Bool) → Op

pub step : Op → Db → Db
step (open_issue repo author title body) s = (create_issue repo author title body s).1
step (move_issue repo number state) s = (set_issue_state repo number state s).1
step (comment repo subject number author body) s = (add_comment repo subject number author body s).1
step (open_pull repo author title body source target) s =
    (create_pull_request repo author title body source target s).1
step (end_pull repo number state merge_commit) s =
    (set_pull_request_state repo number state merge_commit s).1
step (review repo number reviewer verdict body) s =
    (upsert_review repo number reviewer verdict body s).1
step (protect repo protection) s = (set_branch_protection repo protection s).1
step (unprotect repo branch) s = (delete_branch_protection repo branch s).1
step (wait seconds) s = record s { clock = s.clock + seconds }
step (fail outages) s = record s { outages = outages }

unfoldable pub run : List Op → Db → Db
run [] s = s
run (op ∷ ops) s = run ops (step op s)

-- A property that the row changes behind the operations keep, and that time and outages keep.
pub record IsKept (P : Db → Type 0) : Type 0 where
  pub blind : (s : Db) (bs : List Bool) → P s → P (record s { outages = bs })
  pub timeless : (s : Db) (n : ℕ) → P s → P (record s { clock = n })
  pub issue_added :
      (repo : ℕ) (author title body : String) → Keeps P (insert_issue repo author title body)
  pub issue_changed : (repo number : ℕ) (state : String) → Keeps P (update_issue repo number state)
  pub comment_added :
      (repo : ℕ) (subject : String) (number : ℕ) (author body : String)
      → Keeps P (insert_comment repo subject number author body)
  pub pull_added :
      (repo : ℕ) (author title body source target : String)
      → Keeps P (insert_pull repo author title body source target)
  pub pull_changed :
      (repo number : ℕ) (state : String) (merge : Option String)
      → Keeps P (update_pull repo number state merge)
  pub review_put :
      (id : ℕ) (reviewer verdict body : String) → Keeps P (put_review id reviewer verdict body)
  pub rule_put :
      (repo : ℕ) (protection : BranchProtection) → Keeps P (put_protection repo protection)
  pub rule_removed : (repo : ℕ) (branch : String) → Keeps P (remove_protection repo branch)

module _ {P : Db → Type 0} (k : IsKept P) where
  kept_by_statement :
      {A : Type 0} (context : String) (q : Exec A) → Keeps P q → Keeps P (statement context q)
  kept_by_statement = Keeps-statement k.blind

  get_pull_request-Keeps : (repo number : ℕ) → Keeps P (get_pull_request repo number)
  unfolding get_pull_request
  get_pull_request-Keeps repo number = kept_by_statement _ _ (record { at = λ s h. h })

  resolve_id-Keeps : (repo number : ℕ) → Keeps P (resolve_id repo number)
  unfolding resolve_id
  resolve_id-Keeps repo number = record { at = λ s h. h }

  refuse-Keeps : (repo number : ℕ) → Keeps P (refuse repo number)
  unfolding refuse
  refuse-Keeps repo number = record { at = (get_pull_request-Keeps repo number).at }

  returned-Keeps :
      (repo number : ℕ) (changed : Option PullRequest) → Keeps P (returned repo number changed)
  returned-Keeps repo number none = refuse-Keeps repo number
  returned-Keeps repo number (some pr) = Keeps-pure pr

  ruleset kept_rules = (
    Keeps-raise, Keeps-pure, Keeps-if, Keeps-bind, kept_by_statement, get_pull_request-Keeps,
    resolve_id-Keeps, returned-Keeps,
  )

  create_issue-Keeps :
      (repo : ℕ) (author title body : String) → Keeps P (create_issue repo author title body)
  unfolding create_issue
  create_issue-Keeps repo author title body = search (kept_rules, k.issue_added)

  set_issue_state-Keeps :
      (repo number : ℕ) (state : String) → Keeps P (set_issue_state repo number state)
  unfolding set_issue_state
  set_issue_state-Keeps repo number state = search (kept_rules, k.issue_changed)

  add_comment-Keeps :
      (repo : ℕ) (subject : String) (number : ℕ) (author body : String)
      → Keeps P (add_comment repo subject number author body)
  unfolding add_comment
  add_comment-Keeps repo subject number author body = search (kept_rules, k.comment_added)

  create_pull_request-Keeps :
      (repo : ℕ) (author title body source target : String)
      → Keeps P (create_pull_request repo author title body source target)
  unfolding create_pull_request
  create_pull_request-Keeps repo author title body source target = search (kept_rules, k.pull_added)

  set_pull_request_state-Keeps :
      (repo number : ℕ) (state merge_commit : String)
      → Keeps P (set_pull_request_state repo number state merge_commit)
  unfolding set_pull_request_state
  set_pull_request_state-Keeps repo number state merge_commit = search (kept_rules, k.pull_changed)

  upsert_review-Keeps :
      (repo number : ℕ) (reviewer verdict body : String)
      → Keeps P (upsert_review repo number reviewer verdict body)
  unfolding upsert_review
  upsert_review-Keeps repo number reviewer verdict body = search (kept_rules, k.review_put) depth 8

  set_branch_protection-Keeps :
      (repo : ℕ) (protection : BranchProtection) → Keeps P (set_branch_protection repo protection)
  unfolding set_branch_protection
  set_branch_protection-Keeps repo protection = search (kept_rules, k.rule_put)

  delete_branch_protection-Keeps :
      (repo : ℕ) (branch : String) → Keeps P (delete_branch_protection repo branch)
  unfolding delete_branch_protection
  delete_branch_protection-Keeps repo branch = search (kept_rules, k.rule_removed)

  step-Keeps : (op : Op) (s : Db) → P s → P (step op s)
  unfolding step
  step-Keeps (open_issue repo author title body) s h =
      (create_issue-Keeps repo author title body).at s h
  step-Keeps (move_issue repo number state) s h = (set_issue_state-Keeps repo number state).at s h
  step-Keeps (comment repo subject number author body) s h =
      (add_comment-Keeps repo subject number author body).at s h
  step-Keeps (open_pull repo author title body source target) s h =
      (create_pull_request-Keeps repo author title body source target).at s h
  step-Keeps (end_pull repo number state merge_commit) s h =
      (set_pull_request_state-Keeps repo number state merge_commit).at s h
  step-Keeps (review repo number reviewer verdict body) s h =
      (upsert_review-Keeps repo number reviewer verdict body).at s h
  step-Keeps (protect repo protection) s h = (set_branch_protection-Keeps repo protection).at s h
  step-Keeps (unprotect repo branch) s h = (delete_branch_protection-Keeps repo branch).at s h
  step-Keeps (wait seconds) s h = k.timeless s (s.clock + seconds) h
  step-Keeps (fail outages) s h = k.blind s outages h

  -- What the row changes keep, every run of the operations keeps.
  pub run-Keeps : (ops : List Op) (s : Db) → P s → P (run ops s)
  unfolding run
  run-Keeps [] s h = h
  run-Keeps (op ∷ ops) s h = run-Keeps ops (step op s) (step-Keeps op s h)
