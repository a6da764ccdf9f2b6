-- ===== src/Httpapi/OwnProfile.antt =====
-- A user changes no profile but the own one.
use git_castle.Errors.{err, ok, Result}
use git_castle.Httpapi.Hardening.{profile_input, ProfileInput, update_profile_route}
use git_castle.Prelude.{
  ap, ◌&&◌, find?-sat, ◌∙◌, not, ◌||◌, refl, inl, find?-update, eq_iff, revise, none, inr, arith,
  update, true, Bool-cases, some, find?, List, false, ◌≡◌, ◌==◌, ℕ, Option, String,
}
use git_castle.Auth.Types.{UserRow, User, Profile}
use git_castle.Db.{Db}
use git_castle.Httpapi.Reply.{profile_body, try, error_body, write_json, answer, Body}
use git_castle.Auth.Profiles.{is_plausible_url, too_long, edited, updated, update_profile}
use git_castle.Auth.Accounts.{has_name}
use git_castle.Exec.{next, statement_cases}
use git_castle.Httpapi.Request.{decode}

module _ (username other : String) (p : Profile) (apart : (username == other) ≡ false) where
  not_both : (row : UserRow) → has_name other row ≡ true → has_name username row ≡ false
  not_both row h = grind (arith, eq_iff)

  revised :
      (found : Option UserRow)
      → ((row : UserRow) → found ≡ some row → has_name other row ≡ true)
      → revise (has_name username) (edited p) found ≡ found
  revised none sat = refl
  revised (some row) sat = rw (not_both row (sat row refl)) refl

  find-edited :
      (users : List UserRow)
      → find? (has_name other) (update (has_name username) (edited p) users)
        ≡ find? (has_name other) users
  find-edited users =
      find?-update (has_name other) (has_name username) (edited p) users (λ row h. refl)
      ∙ revised (find? (has_name other) users) (find?-sat (has_name other) users)

  updated-others :
      (found : Option UserRow) (s : Db)
      → find? (has_name other) (updated username p found s).1.users ≡ find? (has_name other) s.users
  updated-others none s = refl
  updated-others (some row) s = find-edited s.users

  update_profile-others :
      (s : Db)
      → find? (has_name other) (update_profile username p s).1.users
        ≡ find? (has_name other) s.users
  unfolding update_profile
  update_profile-others s =
      elim (Bool-cases (too_long p.display_name || too_long p.bio || too_long p.location)) [
        | inl h ↦ rw h refl
        | inr h ↦
            rw h (elim (Bool-cases (not (p.website == "") && not (is_plausible_url p.website))) [
              | inl w ↦ rw w refl
              | inr w ↦
                  rw w
                    (elim (statement_cases "update profile"
                      (λ s. updated username p (find? (has_name username) s.users) s) s) [
                        | inl e ↦ rw e refl
                        | inr e ↦ rw e (updated-others (find? (has_name username) s.users) (next s))
                      ])
            ])
      ]

answer-state :
    {A : Type 0} (r : Result A × Db) (status : ℕ) (body : A → Body) (s : Db)
    → (answer r (λ a. write_json status (body a)) s).1 ≡ r.1
answer-state (ok a, t) status body s = refl
answer-state (err e, t) status body s = refl

module _ (user : User) (other : String) (apart : (user.username == other) ≡ false) where
  decoded :
      (input : Option ProfileInput) (s : Db)
      → find?
          (has_name other)
          (decode input
            (λ i.
              try
                (update_profile user.username (profile_input i))
                λ profile. write_json 200 (profile_body profile))
            s).1.users
        ≡ find? (has_name other) s.users
  decoded none s = refl
  decoded (some i) s =
      ap (λ t. find? (has_name other) t.users)
        (answer-state (update_profile user.username (profile_input i) s) 200 profile_body s)
      ∙ update_profile-others user.username other (profile_input i) apart s

  -- Whatever a user sends to PUT …/users/{username}/profile, and under any outages, no other user's
  -- row changes; and with that user's name in the path the answer is 403 and nothing changes at all.
  pub update_profile_route_own :
      (username : String) (input : Option ProfileInput) (s : Db)
      → (find? (has_name other) (update_profile_route user username input s).1.users
          ≡ find? (has_name other) s.users)
        × (update_profile_route user other input s
            ≡ write_json 403 (error_body "may only edit your own profile") s)
  unfolding update_profile_route
  update_profile_route_own username input s = (
    elim (Bool-cases (user.username == username)) [
      | inr h ↦ rw h refl
      | inl h ↦ rw h (decoded input s)
    ],
    rw apart refl,
  )
