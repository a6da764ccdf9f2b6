-- ===== src/Audit/Store.antt =====
-- Store of internal/audit/audit.go; the details are JSON text, encoded and decoded without error.
use git_castle.Audit.Types.{Entry}
use git_castle.Prelude.{
  ◌&&◌, ◌||◌, ◌++◌, zero, ltb, filter, eqb, ◌==◌, suc, if◌then◌else◌, ◌∷◌, [], Option, Bool, ℕ,
  String, List,
}
use git_castle.Prelude.Int.{negsuc, pos, ℤ}
use git_castle.Exec.{statement, Exec}
use git_castle.Errors.{ok}

abbrev pub entry_of : ℕ → ℕ → String → String → String → Option String → String → Entry
entry_of id now actor action target details remote_ip = record {
  id = id;
  time = now;
  actor = actor;
  action = action;
  target = target;
  details = details;
  remote_ip = remote_ip;
}

unfoldable pub insert_entry : String → String → String → Option String → String → Exec (Unit {0})
insert_entry actor action target details remote_ip s =
    let e = entry_of s.audit_seq s.clock actor action target details remote_ip in
    (ok tt, record s { audit_log = s.audit_log ++ e ∷ []; audit_seq = suc s.audit_seq })

-- Record
unfoldable pub record_entry : String → String → String → Option String → String → Exec (Unit {0})
record_entry actor action target details remote_ip =
    statement "insert audit entry" (insert_entry actor action target details remote_ip)

abbrev is_asked : String → String → Entry → Bool
is_asked actor action e = (actor == "" || e.actor == actor) && (action == "" || e.action == action)

-- ORDER BY occurred_at DESC
unfoldable insert_latest : Entry → List Entry → List Entry
insert_latest e [] = e ∷ []
insert_latest e (f ∷ rest) = if ltb e.time f.time then f ∷ insert_latest e rest else e ∷ f ∷ rest

unfoldable latest_first : List Entry → List Entry
latest_first [] = []
latest_first (e ∷ rest) = insert_latest e (latest_first rest)

unfoldable first_entries : ℕ → List Entry → List Entry
first_entries zero entries = []
first_entries (suc n) [] = []
first_entries (suc n) (e ∷ entries) = e ∷ first_entries n entries

abbrev entry_limit : ℤ → ℕ
entry_limit (pos n) = if eqb n 0 || ltb 500 n then 100 else n
entry_limit (negsuc n) = 100

-- List
abbrev pub list_entries : String → String → ℤ → Exec (List Entry)
unfolding insert_latest latest_first first_entries
list_entries actor action limit = statement "list audit entries" λ s.
    let rows = filter (is_asked actor action) s.audit_log in
    (ok (first_entries (entry_limit limit) (latest_first rows)), s)
