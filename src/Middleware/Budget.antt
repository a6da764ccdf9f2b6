-- ===== src/Middleware/Budget.antt =====
-- How many requests a token bucket admits.
use git_castle.Prelude.{
  refl, suc, false≢true, true, ◌≡◌, [], ◌∷◌, List, Bool-cases, inl, inr, ◌≤◌, ◌*◌, if◌then◌else◌,
  arith, ◌∷◌, ◌+◌, ℕ, List,
}
use git_castle.Prelude.Int.{
  neg_part-minus, sub_ℕ_parts, ◌+ℤ◌, min_ℤ_right, ltb_ℤ, sub_ℕ, neg_part, +ℤ_parts, pos_part, pos,
}
use git_castle.Middleware.RateLimit.{Rate, Bucket, token, allow, filled, full}

-- The requests at the given times, in the order in which the bucket meets them: how many were
-- admitted, and the bucket afterwards.
pub admitted : Rate → Bucket → List ℕ → ℕ
admitted rate b [] = 0
admitted rate b (now ∷ later) =
    (if (allow rate b now).0 then 1 else 0) + admitted rate (allow rate b now).1 later

pub bucket_after : Rate → Bucket → List ℕ → Bucket
bucket_after rate b [] = b
bucket_after rate b (now ∷ later) = bucket_after rate (allow rate b now).1 later

module _ (rate : Rate) (start : ℕ) where
  -- The tokens that are left and those that were spent are covered by the burst and the refill.
  abbrev pub IsPaid : ℕ → Bucket → Type 0
  IsPaid spent b =
      pos_part b.tokens + spent * token + start * rate.refill
      ≤ neg_part b.tokens + rate.capacity * token + b.last * rate.refill

  pub filled_le :
      (now : ℕ) (b : Bucket)
      → pos_part (filled rate b now) + neg_part b.tokens + b.last * rate.refill
        ≤ neg_part (filled rate b now) + pos_part b.tokens + now * rate.refill
  unfolding filled
  filled_le now b =
      let gained = sub_ℕ (now * rate.refill) (b.last * rate.refill) in
      omega (
        arith,
        min_ℤ_right (pos (rate.capacity * token)) (b.tokens +ℤ gained),
        +ℤ_parts b.tokens gained,
        sub_ℕ_parts (now * rate.refill) (b.last * rate.refill),
      )

  pub allow-IsPaid :
      (spent now : ℕ) (b : Bucket)
      → IsPaid spent b
      → IsPaid (spent + (if (allow rate b now).0 then 1 else 0)) (allow rate b now).1
  unfolding allow
  allow-IsPaid spent now b h = elim (Bool-cases (ltb_ℤ (filled rate b now) (pos token))) [
    | inl poor ↦ rw poor (omega (arith, filled_le now b))
    | inr rich ↦
        rw rich (omega (arith, filled_le now b, +ℤ_parts (filled rate b now) (sub_ℕ 0 token)))
  ]

  run-IsPaid :
      (times : List ℕ) (spent : ℕ) (b : Bucket)
      → IsPaid spent b
      → IsPaid (spent + admitted rate b times) (bucket_after rate b times)
  unfolding admitted bucket_after
  run-IsPaid [] spent b h = omega arith
  run-IsPaid (now ∷ later) spent b h =
      omega (arith, run-IsPaid later _ (allow rate b now).1 (allow-IsPaid spent now b h))

pub allow-true :
    (rate : Rate) (b : Bucket) (now : ℕ)
    → (allow rate b now).0 ≡ true
    → (neg_part (allow rate b now).1.tokens ≡ 0) × ((allow rate b now).1.last ≡ now)
unfolding allow
allow-true rate b now h = elim (Bool-cases (ltb_ℤ (filled rate b now) (pos token))) [
  | inl poor ↦ absurd (false≢true (rw poor at h))
  | inr rich ↦ rw rich (neg_part-minus (filled rate b now) token rich, refl)
]

-- A bucket that is full at some time and meets requests at any later or earlier times, in any
-- order: up to each request that it admits, the admitted requests number at most the capacity and
-- what was refilled from the start to the time of that request.
pub bucket_budget :
    (rate : Rate) (start now : ℕ) (times : List ℕ)
    → (allow rate (bucket_after rate (full rate start) times) now).0 ≡ true
    → suc (admitted rate (full rate start) times) * token + start * rate.refill
      ≤ rate.capacity * token + now * rate.refill
bucket_budget rate start now times h =
    let b = bucket_after rate (full rate start) times in
    let paid = run-IsPaid rate start times 0 (full rate start) (omega arith) in
    let paid' = allow-IsPaid rate start (0 + admitted rate (full rate start) times) now b paid in
    let (covered, at_now) = allow-true rate b now h in
    let bound = rw (h, covered, at_now) at paid' in omega arith
