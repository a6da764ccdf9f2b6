-- ===== src/Middleware/Marked.antt =====
-- The headers that every answer of the hardened handler carries.
use git_castle.Middleware.Wire.{
  panics, writes, writes_header, set_header, sent_once, write_header, write, Head, sets,
  assign_header, Wire, play, header, Action,
}
use git_castle.Prelude.{
  refl, inr, eq_iff, subst, inl, [], ◌∙◌, none, arith, Bool-cases, ◌∷◌, ◌==◌, false, ap, Option,
  All, ◌≡◌, ℕ, List, Bool, some, any, String,
}
use git_castle.Middleware.Chain.{security_headers}

-- The request's ID and the security headers
abbrev pub expected : String → List (String × String)
expected id = ("X-Request-ID", id) ∷ security_headers

abbrev pub Bears : String → List (String × String) → Type 0
Bears id headers = All (λ e. header e.0 headers ≡ some e.1) (expected id)

-- A header that the handler behind the chain may set
unfoldable pub is_reserved : String → Bool
unfolding any
is_reserved key = any (λ e. key == e.0) (expected "")

abbrev pub IsPlainAction : Action → Type 0
IsPlainAction (sets key value) = is_reserved key ≡ false
IsPlainAction (writes_header status) = Unit
IsPlainAction (writes text) = Unit
IsPlainAction (panics abort) = Unit

pub record IsMarked (id : String) (w : Wire) : Type 0 where
  pub pending : Bears id w.headers
  pub gone : (head : Head) → w.sent ≡ some head → Bears id head.headers

header-assign_other :
    (key value other : String) (headers : List (String × String))
    → (key == other) ≡ false
    → header other (assign_header key value headers) ≡ header other headers
unfolding header assign_header
header-assign_other key value other [] h = rw h refl
header-assign_other key value other ((k, v) ∷ rest) h = elim (Bool-cases (k == key)) [
  | inl e ↦ let apart : (k == other) ≡ false = grind (arith, eq_iff) in rw (e, apart) refl
  | inr e ↦ rw e (ground (arith, header-assign_other key value other rest h))
]

All-apart {ℓ κ μ} :
    {A : Type ℓ} {P : A → Type κ} {Q : A → Type μ} (p : A → Bool) (xs : List A)
    → ((x : A) → p x ≡ false → P x → Q x)
    → any p xs ≡ false
    → All P xs
    → All Q xs
unfolding any
All-apart p [] f h hs = tt
All-apart p (x ∷ xs) f h (first, hs) =
    let here : p x ≡ false = ground arith in
    let rest : any p xs ≡ false = ground arith in (f x here first, All-apart p xs f rest hs)

Bears-set :
    (id key value : String) (headers : List (String × String))
    → is_reserved key ≡ false
    → Bears id headers
    → Bears id (assign_header key value headers)
unfolding is_reserved any
Bears-set id key value headers free bears =
    All-apart {P = λ e. header e.0 headers ≡ some e.1} (λ e. key == e.0) (expected id)
      (λ e apart h. header-assign_other key value e.0 headers apart ∙ h) free bears

pub set_header-IsMarked :
    (id key value : String) (w : Wire)
    → is_reserved key ≡ false
    → IsMarked id w
    → IsMarked id (set_header key value w)
set_header-IsMarked id key value w free m = record {
  pending = Bears-set id key value w.headers free m.pending;
  gone = m.gone;
}

pub some-injective : {A : Type 0} {x y : A} → some x ≡ some y → x ≡ y
some-injective {A} {x} h = ap (λ o. elim o as (λ _. A) [ none ↦ x | some z ↦ z ]) h

pub sent_once-Bears :
    (id : String) (status : ℕ) (headers : List (String × String)) (sent : Option Head)
    → Bears id headers
    → ((head : Head) → sent ≡ some head → Bears id head.headers)
    → (head : Head) → sent_once status headers sent ≡ some head
    → Bears id head.headers
sent_once-Bears id status headers none pending gone head h =
    subst (λ k. Bears id k.headers) (some-injective h) pending
sent_once-Bears id status headers (some earlier) pending gone head h = gone head h

pub write_header-IsMarked :
    (id : String) (status : ℕ) (w : Wire) → IsMarked id w → IsMarked id (write_header status w)
write_header-IsMarked id status w m = record {
  pending = m.pending;
  gone = sent_once-Bears id status w.headers w.sent m.pending m.gone;
}

pub write-IsMarked : (id text : String) (w : Wire) → IsMarked id w → IsMarked id (write text w)
write-IsMarked id text w m = record {
  pending = m.pending;
  gone = sent_once-Bears id 200 w.headers w.sent m.pending m.gone;
}

pub play-IsMarked :
    (id : String) (actions : List Action) (w : Wire)
    → All IsPlainAction actions
    → IsMarked id w
    → IsMarked id (play actions w).1
unfolding play
play-IsMarked id [] w plain m = m
play-IsMarked id (sets key value ∷ rest) w (free, plain) m =
    play-IsMarked id rest (set_header key value w) plain (set_header-IsMarked id key value w free m)
play-IsMarked id (writes_header status ∷ rest) w (_, plain) m =
    play-IsMarked id rest (write_header status w) plain (write_header-IsMarked id status w m)
play-IsMarked id (writes text ∷ rest) w (_, plain) m =
    play-IsMarked id rest (write text w) plain (write-IsMarked id text w m)
play-IsMarked id (panics abort ∷ rest) w plain m = m
