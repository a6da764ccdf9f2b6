-- ===== src/Gitserve/Authorised.antt =====
-- What it takes for a request to reach git http-backend.
use git_castle.Prelude.{
  none, Option, ◌⊎◌, ◌==◌, false, ◌∙◌, refl, Bool-cases, inr, arith, true, inl, some, find?, ℕ, ◌≡◌,
  String,
}
use git_castle.Gitserve.Request.{parse_owner_repo, GitRequest}
use git_castle.Exec.{pure, select_state, resume}
use git_castle.Db.{Db}
use git_castle.Errors.{Result, err, ok}
use git_castle.Auth.Accounts.{verified, has_name, authenticate}
use git_castle.Auth.Crypto.{Crypto}
use git_castle.Auth.Types.{UserRow, User}
use git_castle.Gitserve.Access.{
  with_credentials, access_of, reply_authenticated, reply_access, backend, serve_git, authorize,
  authenticate_id, required_role,
}
use git_castle.Gitserve.Checks.{check_access-ok, authenticate-ok, SameTables, HasRole, HasPassword}

resume-pure_state :
    {A B : Type 0} (g : A → B) (x : Result A × Db) → (resume x (λ a. pure (g a))).1 ≡ x.1
resume-pure_state g (ok a, s) = refl
resume-pure_state g (err e, s) = refl

resume-pure_ok :
    {A B : Type 0} (g : A → B) (x : Result A × Db) {b : B}
    → (resume x (λ a. pure (g a))).0 ≡ ok b
    → (a : A) × (x.0 ≡ ok a) × (g a ≡ b)
resume-pure_ok g (ok a, s) h = (a, refl, ground arith)
resume-pure_ok g (err e, s) h = absurd (ground arith)

authenticate_id-ok :
    (c : Crypto) (username password : String) (s : Db) {id : ℕ}
    → (authenticate_id c username password s).0 ≡ ok id
    → (row : UserRow) × HasPassword c s username password row × (row.id ≡ id)
unfolding authenticate_id
authenticate_id-ok c username password s h =
    let (user, checked, same) =
      resume-pure_ok {A = User} (λ user. user.id) (authenticate c username password s) h in
    let (row, has, same') = authenticate-ok c username password s checked in
    (row, has, same' ∙ same)

authenticate_id_state :
    (c : Crypto) (username password : String) (s : Db)
    → SameTables s (authenticate_id c username password s).1
unfolding authenticate_id authenticate
authenticate_id_state c username password s =
    rw
      (
        resume-pure_state {A = User} (λ user. user.id) (authenticate c username password s),
        select_state "lookup user" (λ t. verified c password (find? (has_name username) t.users)) s,
      )
      (refl, refl, refl)

HasRole-same :
    (s t : Db) (id : ℕ) (owner repo required : String)
    → SameTables s t
    → HasRole t id owner repo required
    → HasRole s id owner repo required
HasRole-same s t id owner repo required (us, rs, ps) (repository, user, grant, r, u, g, role) =
    (repository, user, grant, rw (← rs) r, rw (← us) u, rw (← ps) g, role)

reply-ok :
    (r : GitRequest) (x : Result ℕ × Db) {t : Db}
    → reply_authenticated r x ≡ (backend, t)
    → (id : ℕ) × (x.0 ≡ ok id) × (authorize id r x.1 ≡ (backend, t))
reply-ok r (ok id, s) h = (id, refl, h)
reply-ok r (err e, s) h = absurd (ground arith)

reply_access-ok :
    (x : Result (Unit {0}) × Db) {t : Db} → reply_access x ≡ (backend, t) → x ≡ (ok tt, t)
reply_access-ok (ok _, s) h = ground arith
reply_access-ok (err _, s) h = absurd (ground arith)

authorize-ok :
    (id : ℕ) (r : GitRequest) (s : Db) {t : Db}
    → authorize id r s ≡ (backend, t)
    → let (owner, repo) = parse_owner_repo r.path in
      ((owner == "") ≡ true) ⊎ HasRole s id owner repo (required_role (access_of r))
unfolding authorize
authorize-ok id r s {t} h =
    let (owner, repo) = parse_owner_repo r.path in
    elim (Bool-cases (owner == "")) [
      | inl outside ↦ inl outside
      | inr inside ↦
          inr (check_access-ok id owner repo (access_of r) s t (reply_access-ok _ (rw inside at h)))
    ]

with_credentials-ok :
    (c : Crypto) (r : GitRequest) (given : Option (String × String)) (s t : Db)
    → with_credentials c r given s ≡ (backend, t)
    → (username : String) × (password : String) × (given ≡ some (username, password))
      × ((username == "") ≡ false)
      × (reply_authenticated r (authenticate_id c username password s) ≡ (backend, t))
with_credentials-ok c r none s t h = absurd (ground arith)
with_credentials-ok c r (some (username, password)) s t h = elim (Bool-cases (username == "")) [
  | inl empty ↦ absurd (ground arith)
  | inr named ↦ (username, password, refl, named, rw named at h)
]

-- The caller's account, with the password that the request carries.
abbrev pub IsSignedIn : Crypto → Db → GitRequest → UserRow → Type 0
IsSignedIn c s r row =
    (username : String) × (password : String) × (r.basic_auth ≡ some (username, password))
    × ((username == "") ≡ false)
    × HasPassword c s username password row

-- A request reaches git http-backend only if its basic credentials are those of a stored account
-- and, when its path names an owner and a repository, that repository is stored and the account
-- has a grant on it of at least the role that the request needs: "write" for a POST with the
-- query service=git-receive-pack, "read" for every other request.
pub serve_git_authorised :
    (c : Crypto) (r : GitRequest) (s t : Db)
    → serve_git c r s ≡ (backend, t)
    → let (owner, repo) = parse_owner_repo r.path in
      (row : UserRow) × IsSignedIn c s r row
      × (((owner == "") ≡ true) ⊎ HasRole s row.id owner repo (required_role (access_of r)))
unfolding serve_git
serve_git_authorised c r s t h =
    let (username, password, given, named, h') = with_credentials-ok c r r.basic_auth s t h in
    let reply = authenticate_id c username password s in
    let (id, signed, last) = reply-ok r reply h' in
    let (row, has, same) = authenticate_id-ok c username password s signed in
    (
      row,
      (username, password, given, named, has),
      elim (authorize-ok id r reply.1 last) [
        | inl outside ↦ inl outside
        | inr role ↦ inr (
            HasRole-same s reply.1 row.id _ _ _ (authenticate_id_state c username password s)
              (rw same role))
      ],
    )
