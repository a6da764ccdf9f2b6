-- ===== src/Middleware/Limiter.antt =====
-- The budget of one key of the rate limiter, whatever the other keys do and whenever it sweeps.
use git_castle.Prelude.{
  Option-cases, find?, count, refl, arith, ◌&&◌, ◌==◌, ◌+◌, ◌*◌, if◌then◌else◌, ◌≤◌, String, ℕ, [],
  ◌∷◌, List, inl, inr,
}
use native.Mathlib.Nat.{mul-le-mul_right}
use git_castle.Middleware.RateLimit.{new_limiter, has_key, token, allow_key, RateLimiter, Rate}
use git_castle.Middleware.Covered.{step-Covered, admit-IsMap, CoveredIn, IsMap}

-- Requests in the order in which they take the lock, at times that do not go back.
abbrev pub IsOrdered : ℕ → List (String × ℕ) → Type 0
IsOrdered now [] = Unit
IsOrdered now ((_, t) ∷ rest) = (now ≤ t) × IsOrdered t rest

abbrev pub end_time : ℕ → List (String × ℕ) → ℕ
end_time now [] = now
end_time now ((_, t) ∷ rest) = end_time t rest

-- How many requests of the key were admitted.
pub admitted_for : Rate → String → RateLimiter → List (String × ℕ) → ℕ
admitted_for rate key rl [] = 0
admitted_for rate key rl ((k, t) ∷ rest) =
    (if k == key && (allow_key rate k t rl).0 then 1 else 0)
    + admitted_for rate key (allow_key rate k t rl).1 rest

run-Covered :
    (rate : Rate) (key : String) (start : ℕ) (refills : rate.capacity ≤ 3600 * rate.refill)
    (requests : List (String × ℕ)) (spent now : ℕ) (rl : RateLimiter)
    → IsOrdered now requests
    → IsMap rl.entries
    → CoveredIn rate key start refills spent now (find? (has_key key) rl.entries)
    → (spent + admitted_for rate key rl requests) * token + start * rate.refill
      ≤ rate.capacity * token + end_time now requests * rate.refill
unfolding admitted_for allow_key
run-Covered rate key start refills [] spent now rl ordered map covered =
    elim (Option-cases (find? (has_key key) rl.entries)) [
      | inl missing ↦ let h = rw missing at covered in omega arith
      | inr (e, found) ↦
          let (settled, last, paid) = rw found at covered in
          let later = mul-le-mul_right rate.refill last in omega arith
    ]
run-Covered rate key start refills ((k, t) ∷ rest) spent now rl (le, ordered) map covered =
    let tail =
      run-Covered rate key start refills rest _ t (allow_key rate k t rl).1 ordered
        (admit-IsMap rate k t (find? (has_key k) rl.entries) rl refl map)
        (step-Covered rate key start refills spent now t le rl map k covered) in
    omega arith

-- From a new limiter, for requests of any keys at times that do not go back, and whichever buckets
-- it sweeps: the requests of one key that are admitted number at most the capacity and what is
-- refilled from the start to the last request, if an hour refills a bucket.
pub key_budget :
    (rate : Rate) (key : String) (start : ℕ) (requests : List (String × ℕ))
    → rate.capacity ≤ 3600 * rate.refill
    → IsOrdered start requests
    → admitted_for rate key (new_limiter start) requests * token + start * rate.refill
      ≤ rate.capacity * token + end_time start requests * rate.refill
unfolding find? count
key_budget rate key start requests refills ordered =
    let bound =
      run-Covered rate key start refills requests 0 start (new_limiter start) ordered
        (λ k. omega arith) (omega arith) in
    omega arith
