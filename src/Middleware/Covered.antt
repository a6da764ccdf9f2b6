-- ===== src/Middleware/Covered.antt =====
-- What one request does to the budget of a key of the rate limiter.
use git_castle.Prelude.{
  subst, find?-sat, find?-update, Option-cases, revise, find?-delete_unique, find?-append_other,
  find?-append_none, eq_refl, eq_iff, count-append, false, count_of_find?, find?-delete-none,
  length, count-update, leb, not, count-delete-le, keep, find?, count, refl, arith, none, some, ◌<◌,
  ◌≡◌, ◌&&◌, ◌==◌, ◌+◌, Option, ◌*◌, if◌then◌else◌, ◌≤◌, String, ℕ, List, Bool-cases, inl, inr,
}
use git_castle.Prelude.Int.{
  neg_part-minus, neg_part-gain, neg_part-min, ltb_ℤ, pos, pos_part, neg_part,
}
use native.Mathlib.Nat.{mul-le-mul_right}
use git_castle.Middleware.Budget.{allow-IsPaid}
use git_castle.Middleware.RateLimit.{
  full, with_bucket, is_stale, admit, has_key, make_room, filled, token, allow_key, hour, allow,
  Entry, Bucket, RateLimiter, Rate,
}

module _ (rate : Rate) (key : String) (start : ℕ)
    (refills : rate.capacity ≤ 3600 * rate.refill) where
  -- No debt, and what was spent is covered at the bucket's time.
  abbrev pub Covered : ℕ → ℕ → Bucket → Type 0
  Covered spent now b =
      (neg_part b.tokens ≡ 0)
      × (b.last ≤ now)
      × (pos_part b.tokens + spent * token + start * rate.refill
          ≤ rate.capacity * token + b.last * rate.refill)

  abbrev pub CoveredIn : ℕ → ℕ → Option Entry → Type 0
  CoveredIn spent now none = spent * token + start * rate.refill ≤ now * rate.refill
  CoveredIn spent now (some e) = Covered spent now e.bucket

  stale_lem :
      (spent last now n : ℕ)
      → last + hour < now
      → n + spent * token + start * rate.refill ≤ rate.capacity * token + last * rate.refill
      → spent * token + start * rate.refill ≤ now * rate.refill
  stale_lem spent last now n stale paid =
      let idle : (last + hour) * rate.refill ≤ now * rate.refill =
        mul-le-mul_right rate.refill (omega arith) in
      let burst : rate.capacity * token ≤ 3600 * rate.refill * token =
        mul-le-mul_right token refills in
      omega arith

  filled-neg :
      (now t : ℕ) (b : Bucket) → neg_part b.tokens ≡ 0 → b.last ≤ t → neg_part (filled rate b t) ≡ 0
  unfolding filled
  filled-neg now t b none_owed le =
      neg_part-min _ _ (neg_part-gain b.tokens _ _ none_owed (mul-le-mul_right rate.refill le))

  allow-settled :
      (t : ℕ) (b : Bucket)
      → neg_part (filled rate b t) ≡ 0
      → (neg_part (allow rate b t).1.tokens ≡ 0) × ((allow rate b t).1.last ≡ t)
  unfolding allow
  allow-settled t b h = elim (Bool-cases (ltb_ℤ (filled rate b t) (pos token))) [
    | inl poor ↦ rw poor (h, refl)
    | inr rich ↦ rw rich (neg_part-minus (filled rate b t) token rich, refl)
  ]

  allow-Covered :
      (spent now t : ℕ) (b : Bucket)
      → Covered spent now b
      → now ≤ t
      → Covered (spent + (if (allow rate b t).0 then 1 else 0)) t (allow rate b t).1
  allow-Covered spent now t b (none_owed, last, paid) le =
      let (settled, at_t) = allow-settled t b (filled-neg now t b none_owed (omega arith)) in
      let paid' = allow-IsPaid rate start spent t b (omega arith) in
      (settled, omega arith, omega arith)

  CoveredIn-later :
      (spent now t : ℕ) (found : Option Entry)
      → now ≤ t
      → CoveredIn spent now found
      → CoveredIn spent t found
  CoveredIn-later spent now t none le h = let later = mul-le-mul_right rate.refill le in omega arith
  CoveredIn-later spent now t (some e) le (settled, last, paid) = (settled, omega arith, paid)

  CoveredIn-keep :
      (spent now t : ℕ) (found : Option Entry)
      → now ≤ t
      → CoveredIn spent now found
      → CoveredIn spent t (keep (λ e. not (is_stale t e)) found)
  CoveredIn-keep spent now t none le h = CoveredIn-later spent now t none le h
  CoveredIn-keep spent now t (some e) le h = elim (Bool-cases (is_stale t e)) [
    | inl stale ↦
        rw stale (stale_lem spent e.bucket.last t (pos_part e.bucket.tokens) (ground arith) (h.2))
    | inr young ↦ rw young (CoveredIn-later spent now t (some e) le h)
  ]

-- Each key has one bucket.
abbrev pub IsMap : List Entry → Type 0
IsMap entries = (k : String) → count (has_key k) entries ≤ 1

make_room-IsMap : (t : ℕ) (rl : RateLimiter) → IsMap rl.entries → IsMap (make_room t rl).entries
make_room-IsMap t rl h k = ground (arith, h k, count-delete-le (has_key k) (is_stale t) rl.entries)

make_room-none :
    (t : ℕ) (rl : RateLimiter) (k : String)
    → find? (has_key k) rl.entries ≡ none
    → find? (has_key k) (make_room t rl).entries ≡ none
make_room-none t rl k h = elim (Bool-cases (leb 10000 (length rl.entries))) [
  | inl many ↦ rw many (find?-delete-none (has_key k) (is_stale t) rl.entries h)
  | inr few ↦ rw few h
]

pub admit-IsMap :
    (rate : Rate) (k : String) (t : ℕ) (found : Option Entry) (rl : RateLimiter)
    → find? (has_key k) rl.entries ≡ found
    → IsMap rl.entries
    → IsMap (admit rate k t found rl).1.entries
unfolding count
admit-IsMap rate k t (some e) rl at h j =
    rw
      (count-update (has_key j) (has_key k) (with_bucket (allow rate e.bucket t).1) rl.entries
        (λ x _. refl))
      (h j)
admit-IsMap rate k t none rl at h j =
    let room = make_room-IsMap t rl h j in
    let free = count_of_find? (has_key k) (make_room t rl).entries (make_room-none t rl k at) in
    rw (count-append (has_key j) (make_room t rl).entries _) (elim (Bool-cases (k == j)) [
      | inl same ↦ let free' = rw ((eq_iff k j).0 same) at free in rw (same, free') (omega arith)
      | inr other ↦ rw other (omega arith)
    ])

module _ (rate : Rate) (key : String) (start : ℕ) (refills : rate.capacity ≤ 3600 * rate.refill)
    (spent now t : ℕ) (le : now ≤ t) (rl : RateLimiter) (h : IsMap rl.entries) where
  abbrev pub Before : Type 0
  Before = CoveredIn rate key start refills spent now (find? (has_key key) rl.entries)

  -- A request of the key itself.
  own-Covered :
      (found : Option Entry)
      → find? (has_key key) rl.entries ≡ found
      → CoveredIn rate key start refills spent now found
      → let after = admit rate key t found rl in
        CoveredIn rate key start refills
          (spent + (if after.0 then 1 else 0))
          t
          (find? (has_key key) after.1.entries)
  unfolding find?
  own-Covered none at covered =
      let later = CoveredIn-later rate key start refills spent now t none le covered in
      rw
        (
          find?-append_none (has_key key) (make_room t rl).entries _ (make_room-none t rl key at),
          eq_refl,
        )
        (allow-Covered rate key start refills spent t t (full rate t)
          (refl, omega arith, omega arith) (omega arith))
  own-Covered (some e) at covered =
      rw
        (
          find?-update (has_key key) (has_key key) (with_bucket (allow rate e.bucket t).1)
              rl.entries (λ x _. refl),
          at,
          find?-sat (has_key key) rl.entries e at,
        )
        (allow-Covered rate key start refills spent now t e.bucket covered le)

  room-Covered :
      Before
      → CoveredIn rate key start refills spent t (find? (has_key key) (make_room t rl).entries)
  room-Covered covered = elim (Bool-cases (leb 10000 (length rl.entries))) [
    | inl many ↦
        rw (many, find?-delete_unique (has_key key) (is_stale t) rl.entries (h key))
          (CoveredIn-keep rate key start refills spent now t _ le covered)
    | inr few ↦ rw few (CoveredIn-later rate key start refills spent now t _ le covered)
  ]

  revise-other :
      (k : String) (b : Bucket)
      → (k == key) ≡ false
      → revise (has_key k) (with_bucket b) (find? (has_key key) rl.entries)
        ≡ find? (has_key key) rl.entries
  revise-other k b differs = elim (Option-cases (find? (has_key key) rl.entries)) [
    | inl missing ↦ rw missing refl
    | inr (e, found) ↦ ground (
      arith,
      found,
      find?-sat (has_key key) rl.entries e found,
      eq_iff e.key key,
      eq_iff e.key k,
      eq_iff k key,
    )
  ]

  -- A request of another key.
  other-Covered :
      (k : String) (found : Option Entry)
      → (k == key) ≡ false
      → Before
      → CoveredIn rate key start refills spent t
          (find? (has_key key) (admit rate k t found rl).1.entries)
  other-Covered k none differs covered =
      let e : Entry = record { key = k; bucket = (allow rate (full rate t) t).1 } in
      rw (find?-append_other (has_key key) (make_room t rl).entries e differs)
        (room-Covered covered)
  other-Covered k (some e) differs covered =
      rw
        (
          find?-update (has_key key) (has_key k) (with_bucket (allow rate e.bucket t).1) rl.entries
              (λ x _. refl),
          revise-other k (allow rate e.bucket t).1 differs,
        )
        (CoveredIn-later rate key start refills spent now t _ le covered)

  pub step-Covered :
      (k : String)
      → Before
      → CoveredIn rate key start refills
          (spent + (if k == key && (allow_key rate k t rl).0 then 1 else 0))
          t
          (find? (has_key key) (allow_key rate k t rl).1.entries)
  unfolding allow_key
  step-Covered k covered = elim (Bool-cases (k == key)) [
    | inl same ↦
        rw ((eq_iff k key).0 same, eq_refl)
          (own-Covered (find? (has_key key) rl.entries) refl covered)
    | inr differs ↦ rw differs (
        subst
          (λ n.
            CoveredIn rate key start refills n t
              (find? (has_key key) (allow_key rate k t rl).1.entries))
          (omega arith) (other-Covered k (find? (has_key k) rl.entries) differs covered))
  ]
