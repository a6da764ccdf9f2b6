-- ===== src/Database/Rerun.antt =====
-- Migrating again after a run that failed, or did not.
use git_castle.Database.Migrate.{
  versions_of, migrate, MigrationFile, and_then, next_call, migrate_all, migrate_version,
  rolled_back, with_version, is_applied, run_or_fail, apply_version, Schema,
}
use git_castle.Prelude.{
  subst, false≢true, All, ◌≢◌, if◌then◌else◌, arith, eq_refl, sym, ap, ◌∙◌, false, any,
  Option-cases, ◌∷◌, Bool, some, List, refl, inr, inl, true, Bool-cases, ◌⊎◌, ◌≡◌, [], Option,
  String,
}
use git_castle.Errors.{failed, ok, err, Error, Result}
use git_castle.Db.{later, down}
use git_castle.Prelude.Text.{append}

abbrev pub calm : {A : Type 0} → Schema A → Schema A
calm s = record s { outages = [] }

err≢ok : {e : Error} → err e ≢ ok (tt {0})
err≢ok h = false≢true (ap (λ r. elim r as (λ _. Bool) [ err _ ↦ false | ok _ ↦ true ]) h)

module _ {A : Type 0} (sql : String → A → Option A) where
  -- A migration that fails changes nothing; one that does not is recorded, and the other ones stay.
  abbrev Fails : Schema A → Result (Unit {0}) × Schema A → Type 0
  Fails s out = (e : Error) × (t : Schema A) × (out ≡ (err e, t)) × (calm t ≡ calm s)

  abbrev Passes : String → Schema A → Type 0
  Passes version s =
      (t : Schema A) × (migrate_version sql version s ≡ (ok tt, t))
      × (migrate_version sql version (calm s) ≡ (ok tt, calm t))
      × (is_applied sql version t ≡ true)
      × ((v : String) → is_applied sql v s ≡ true → is_applied sql v t ≡ true)
      × (t.has_table ≡ s.has_table)

  -- The rest of the transaction, once the SQL of the migration has run
  committed :
      (version : String) (s : Schema A) (rest : A) (outages : List Bool)
      → let close = run_or_fail (append "record migration " version) λ u.
        run_or_fail
          (append "commit migration " version)
          (λ w. (ok tt, w))
          (with_version version u) in
        let out = rolled_back s (close (record s { rest = rest; outages = outages })) in
        ((e : Error) × (t : Schema A) × (out ≡ (err e, t)) × (calm t ≡ calm s))
        ⊎ ((t : Schema A) × (out ≡ (ok tt, t))
            × (calm t ≡ record s { applied = version ∷ s.applied; rest = rest; outages = [] }))
  unfolding run_or_fail
  committed version s rest outages = elim (Bool-cases (down outages)) [
    | inl h ↦ rw h (inl (_, _, refl, refl))
    | inr h ↦ rw h (elim (Bool-cases (down (later outages))) [
      | inl k ↦ rw k (inl (_, _, refl, refl))
      | inr k ↦ rw k (inr (_, refl, refl))
    ])
  ]

  apply_version-cases :
      (version : String) (s : Schema A)
      → Fails s (apply_version sql version s)
        ⊎ ((t : Schema A) × (rest : A) × (apply_version sql version s ≡ (ok tt, t))
            × (sql version s.rest ≡ some rest)
            × (calm t ≡ record s { applied = version ∷ s.applied; rest = rest; outages = [] }))
  unfolding apply_version run_or_fail
  apply_version-cases version s = elim (Bool-cases (down s.outages)) [
    | inl h ↦ rw h (inl (_, _, refl, refl))
    | inr h ↦ rw h (elim (Bool-cases (down (later s.outages))) [
      | inl k ↦ rw k (inl (_, _, refl, refl))
      | inr k ↦ rw k (elim (Option-cases (sql version s.rest)) [
        | inl n ↦ rw n (inl (_, _, refl, refl))
        | inr (rest, r) ↦ rw r (elim (committed version s rest (later (later s.outages))) [
          | inl (e, t, out, same) ↦ inl (e, t, out, same)
          | inr (t, out, after) ↦ inr (t, rest, out, refl, after)
        ])
      ])
    ])
  ]

  -- Without failures a migration that is not applied runs its SQL and is recorded.
  apply_version-calm :
      (version : String) (s : Schema A) (rest : A)
      → sql version s.rest ≡ some rest
      → apply_version sql version (calm s)
        ≡ (ok tt, record s { applied = version ∷ s.applied; rest = rest; outages = [] })
  unfolding apply_version run_or_fail down later
  apply_version-calm version s rest r = rw r refl

  migrate_version-skips :
      (version : String) (s : Schema A)
      → is_applied sql version s ≡ true
      → migrate_version sql version (calm s) ≡ (ok tt, calm s)
  unfolding migrate_version run_or_fail down later is_applied
  migrate_version-skips version s h = rw h refl

  migrate_version-applies :
      (version : String) (s : Schema A)
      → is_applied sql version s ≡ false
      → migrate_version sql version (calm s) ≡ apply_version sql version (calm s)
  unfolding migrate_version run_or_fail down later is_applied
  migrate_version-applies version s h = rw h refl

  passes :
      (version : String) (s t : Schema A) (rest : A)
      → migrate_version sql version s ≡ (ok tt, t)
      → is_applied sql version s ≡ false
      → sql version s.rest ≡ some rest
      → calm t ≡ record s { applied = version ∷ s.applied; rest = rest; outages = [] }
      → Passes version s
  unfolding is_applied any
  passes version s t rest out fresh r after = (
    t,
    out,
    migrate_version-applies version s fresh
        ∙ apply_version-calm version s rest r
        ∙ ap (λ u. (ok tt, u)) (sym after),
    ap (λ u. is_applied sql version u) after ∙ rw eq_refl refl,
    λ v h. ap (λ u. is_applied sql v u) after ∙ ground (arith, h),
    ap (λ u. u.has_table) after,
  )

  migrate_version-up :
      (version : String) (s : Schema A)
      → down s.outages ≡ false
      → migrate_version sql version s ≡ (
          if is_applied sql version (next_call s)
          then (ok tt, next_call s)
          else apply_version sql version (next_call s))
  unfolding migrate_version run_or_fail
  migrate_version-up version s h = rw h refl

  migrate_version-down :
      (version : String) (s : Schema A)
      → down s.outages ≡ true
      → migrate_version sql version s
        ≡ (err (failed (append "check migration " version)), next_call s)
  unfolding migrate_version run_or_fail
  migrate_version-down version s h = rw h refl

  migrate_version-cases :
      (version : String) (s : Schema A) → Fails s (migrate_version sql version s) ⊎ Passes version s
  unfolding is_applied
  migrate_version-cases version s = elim (Bool-cases (down s.outages)) [
    | inl h ↦ inl (_, _, migrate_version-down version s h, refl)
    | inr h ↦
        let up = migrate_version-up version s h in
        elim (Bool-cases (is_applied sql version (next_call s))) [
          | inl k ↦ inr (
            next_call s,
            up ∙ rw k refl,
            migrate_version-skips version s k,
            k,
            λ v there. there,
            refl,
          )
          | inr k ↦ elim (apply_version-cases version (next_call s)) [
            | inl (e, t, out, same) ↦ inl (e, t, up ∙ rw k out, same)
            | inr (t, rest, out, r, after) ↦ inr (passes version s t rest (up ∙ rw k out) k r after)
          ]
        ]
  ]

  -- What all migrations of a list keep, and what migrating again after them gives
  abbrev Again : List String → Schema A → Result (Unit {0}) × Schema A → Type 0
  Again versions s (r, t) =
      (migrate_all sql versions (calm t) ≡ migrate_all sql versions (calm s))
      × (r ≡ ok tt → All (λ v. is_applied sql v t ≡ true) versions)
      × ((v : String) → is_applied sql v s ≡ true → is_applied sql v t ≡ true)
      × (t.has_table ≡ s.has_table)

  -- The rest of the migrations, after one
  rest_of : List String → Result (Unit {0}) × Schema A → Result (Unit {0}) × Schema A
  rest_of versions out = and_then sql out (migrate_all sql versions)

  migrate_all-Again :
      (versions : List String) (s : Schema A) → Again versions s (migrate_all sql versions s)
  unfolding migrate_all is_applied rest_of
  migrate_all-Again [] s = (refl, λ r. tt, λ v h. h, refl)
  migrate_all-Again (version ∷ versions) s = elim (migrate_version-cases version s) [
    | inl (e, t, out, same) ↦
        subst (Again (version ∷ versions) s) (sym (ap (rest_of versions) out)) (
          ap (migrate_all sql (version ∷ versions)) same,
          λ r. absurd (err≢ok r),
          λ v h. ap (λ u. is_applied sql v u) same ∙ h,
          ap (λ u. u.has_table) same,
        )
    | inr (u, out, calm_out, now, earlier, table) ↦
        let (again, complete, kept, table') = migrate_all-Again versions u in
        let skips =
          migrate_version-skips version (migrate_all sql versions u).1 (kept version now) in
        subst (Again (version ∷ versions) s) (sym (ap (rest_of versions) out)) (
          ap (rest_of versions) skips ∙ again ∙ ap (rest_of versions) (sym calm_out),
          λ r. (kept version now, complete r),
          λ v h. kept v (earlier v h),
          table' ∙ table,
        )
  ]

  abbrev tabled : Schema A → Schema A
  tabled s = record s { has_table = true }

  migrate-down :
      (files : List MigrationFile) (s : Schema A)
      → down s.outages ≡ true
      → migrate sql files s ≡ (err (failed "create migrations table"), next_call s)
  unfolding migrate run_or_fail
  migrate-down files s h = rw h refl

  migrate-up :
      (files : List MigrationFile) (s : Schema A)
      → down s.outages ≡ false
      → migrate sql files s ≡ migrate_all sql (versions_of sql files) (tabled (next_call s))
  unfolding migrate run_or_fail
  migrate-up files s h = rw h refl

  migrate-calm :
      (files : List MigrationFile) (s : Schema A)
      → migrate sql files (calm s) ≡ migrate_all sql (versions_of sql files) (calm (tabled s))
  unfolding migrate run_or_fail down later
  migrate-calm files s = refl

  abbrev Reruns : List MigrationFile → Schema A → Result (Unit {0}) × Schema A → Type 0
  Reruns files s (r, t) =
      (migrate sql files (calm t) ≡ migrate sql files (calm s))
      × (r ≡ ok tt → All (λ v. is_applied sql v t ≡ true) (versions_of sql files))

  -- Whatever statements of Migrate fail, migrating again without failures gives the same error or
  -- none, the same schema and the same record of applied versions as if the first run had not been;
  -- and when Migrate returns no error, every version is recorded as applied.
  pub migrate-Reruns :
      (files : List MigrationFile) (s : Schema A) → Reruns files s (migrate sql files s)
  migrate-Reruns files s = elim (Bool-cases (down s.outages)) [
    | inl h ↦ subst (Reruns files s) (sym (migrate-down files s h)) (refl, λ r. absurd (err≢ok r))
    | inr h ↦
        let versions = versions_of sql files in
        let start = tabled (next_call s) in
        let (again, complete, kept, table) = migrate_all-Again versions start in
        let t = (migrate_all sql versions start).1 in
        let same : calm (tabled t) ≡ calm t =
          ap (λ b. record t { has_table = b; outages = [] }) (sym table) in
        subst (Reruns files s) (sym (migrate-up files s h)) (
          migrate-calm files t
              ∙ ap (migrate_all sql versions) same
              ∙ again
              ∙ sym (migrate-calm files s),
          complete,
        )
  ]
