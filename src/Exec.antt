-- ===== src/Exec.antt =====
-- Store methods: code that reads and writes the database and may return an error. What was
-- written before the error stays written.
use git_castle.Prelude.{
  ◌⊎◌, String, ◌≡◌, refl, List, [], ◌∷◌, arith, if◌then◌else◌, Bool, true, false,
}
use git_castle.Errors.{Error, Result, ok, err, failed}
use git_castle.Db.{Db, down, later}

abbrev pub Exec : Type 0 → Type 0
Exec A = Db → Result A × Db

abbrev pub pure : {A : Type 0} → A → Exec A
pure a s = (ok a, s)

abbrev pub raise : {A : Type 0} → Error → Exec A
raise e s = (err e, s)

abbrev pub resume : {A B : Type 0} → Result A × Db → (A → Exec B) → Result B × Db
resume (ok a, s) f = f a s
resume (err e, s) f = (err e, s)

infixl 5 ◌>>=◌ ◌>>◌
abbrev pub ◌>>=◌ : {A B : Type 0} → Exec A → (A → Exec B) → Exec B
◌>>=◌ m f s = resume (m s) f

abbrev pub ◌>>◌ : {A B : Type 0} → Exec A → Exec B → Exec B
m >> n = m >>= λ _. n

-- `v, err := m()` where the code goes on after an error.
abbrev pub attempt : {A : Type 0} → Exec A → Exec (Result A)
attempt m s = let (r, t) = m s in (ok r, t)

-- One SQL statement: it runs, or the driver reports an error and the tables stay as they are.
unfoldable pub statement : {A : Type 0} → String → Exec A → Exec A
statement context q s =
    let t = record s { outages = later s.outages } in
    if down s.outages then (err (failed context), t) else q t

-- A statement that cannot fail by itself returns an error only in an outage.
pub statement_up :
    {A : Type 0} (context : String) (q : Exec A) (s : Db)
    → s.outages ≡ []
    → statement context q s ≡ q s
unfolding statement down later
statement_up context q s h = rw h refl

module _ {A : Type 0} (context : String) (q : Exec A) (s : Db) (bs : List Bool) where
  pub statement_next :
      s.outages ≡ false ∷ bs → statement context q s ≡ q (record s { outages = bs })
  unfolding statement down later
  statement_next h = rw h refl

  pub statement_down :
      s.outages ≡ true ∷ bs
      → statement context q s ≡ (err (failed context), record s { outages = bs })
  unfolding statement down later
  statement_down h = rw h refl

-- The state in which a statement runs, and its two outcomes.
abbrev pub next : Db → Db
next s = record s { outages = later s.outages }

pub statement_cases :
    {A : Type 0} (context : String) (q : Exec A) (s : Db)
    → (statement context q s ≡ (err (failed context), next s))
      ⊎ (statement context q s ≡ q (next s))
unfolding statement
statement_cases context q s = ground arith

-- Inversion of a chain that returned a value.
module _ {A B : Type 0} where
  resume_ok :
      (f : A → Exec B) (r : Result A) (s : Db) {b : B} {t : Db}
      → resume (r, s) f ≡ (ok b, t)
      → (a : A) × (r ≡ ok a) × (f a s ≡ (ok b, t))
  resume_ok f (ok a) s h = (a, refl, h)
  resume_ok f (err e) s h = cc

  pub bind_ok :
      (m : Exec A) (f : A → Exec B) (s : Db) {b : B} {t : Db}
      → (m >>= f) s ≡ (ok b, t)
      → (a : A) × ((m s).0 ≡ ok a) × (f a (m s).1 ≡ (ok b, t))
  bind_ok m f s h = let (r, u) = m s in resume_ok f r u h

-- A SELECT leaves the tables as they are, and returns a value only if it ran.
module _ {A : Type 0} (context : String) (g : Db → Result A) (s : Db) where
  pub select_state : (statement context (λ t. (g t, t)) s).1 ≡ next s
  unfolding statement
  select_state = ground arith

  pub select_ok : {a : A} → (statement context (λ t. (g t, t)) s).0 ≡ ok a → g (next s) ≡ ok a
  unfolding statement
  select_ok h = ground arith

-- `m` keeps `P`, whether it returns a value or an error.
pub record Keeps {A : Type 0} (P : Db → Type 0) (m : Exec A) : Type 0 where
  pub at : (s : Db) → P s → P (m s).1

module _ {A B : Type 0} {P : Db → Type 0} where
  Keeps-resume :
      (f : A → Exec B)
      → ((a : A) → Keeps P (f a))
      → (r : Result A) (s : Db) → P s
      → P (resume (r, s) f).1
  Keeps-resume f kf (ok a) s h = (kf a).at s h
  Keeps-resume f kf (err e) s h = h

  pub Keeps-bind :
      (m : Exec A) (f : A → Exec B) → Keeps P m → ((a : A) → Keeps P (f a)) → Keeps P (m >>= f)
  Keeps-bind m f km kf = record {
    at = λ s h. let (r, t) = m s in Keeps-resume f kf r t (km.at s h);
  }

module _ {A : Type 0} {P : Db → Type 0} where
  pub Keeps-raise : (e : Error) → Keeps P (raise {A = A} e)
  Keeps-raise e = record { at = λ s h. h }

  pub Keeps-pure : (a : A) → Keeps P (pure a)
  Keeps-pure a = record { at = λ s h. h }

  pub Keeps-if : (b : Bool) (m n : Exec A) → Keeps P m → Keeps P n → Keeps P (if b then m else n)
  Keeps-if true m n km kn = km
  Keeps-if false m n km kn = kn

  pub Keeps-attempt : (m : Exec A) → Keeps P m → Keeps P (attempt m)
  Keeps-attempt m km = record { at = km.at }

-- What a statement keeps if it runs, it keeps if it fails.
module _ {P : Db → Type 0}
    (blind : (s : Db) (bs : List Bool) → P s → P (record s { outages = bs })) where
  pub Keeps-statement :
      {A : Type 0} (context : String) (q : Exec A) → Keeps P q → Keeps P (statement context q)
  unfolding statement
  Keeps-statement context q keep = record {
    at = λ s h. ground (
      arith,
      blind s (later s.outages) h,
      keep.at (record s { outages = later s.outages }) (blind s (later s.outages) h),
    );
  }
