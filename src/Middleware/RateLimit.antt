-- ===== src/Middleware/RateLimit.antt =====
-- internal/middleware/ratelimit.go. Times are nanoseconds, and tokens are counted in billionths, so
-- that one nanosecond adds `refill` of them; the capacity and the rate are whole numbers, and the
-- rounding of float64 is left out. `now` is read before the lock is taken, so a bucket can meet a
-- time before its last one.
use git_castle.Prelude.{
  ◌++◌, update, find?, ◌||◌, ◌+◌, true, length, ◌==◌, some, none, ltb, leb, false, eqb, ◌∷◌, ◌*◌,
  if◌then◌else◌, delete, [], Option, Bool, ℕ, String, List,
}
use git_castle.Prelude.Int.{min_ℤ, ℤ, pos, ltb_ℤ, sub_ℕ, ◌+ℤ◌}
use git_castle.Prelude.Text.{before, trim}

abbrev pub token : ℕ
token = 1000000000

pub record Bucket : Type 0 where
  pub tokens : ℤ
  pub last : ℕ

-- NewRateLimiter's arguments, which every bucket repeats
pub record Rate : Type 0 where
  pub capacity : ℕ
  pub refill : ℕ

-- The tokens at a time.
unfoldable pub filled : Rate → Bucket → ℕ → ℤ
filled rate b now =
    min_ℤ (pos (rate.capacity * token))
      (b.tokens +ℤ sub_ℕ (now * rate.refill) (b.last * rate.refill))

-- allow
unfoldable pub allow : Rate → Bucket → ℕ → Bool × Bucket
allow rate b now =
    let tokens = filled rate b now in
    if ltb_ℤ tokens (pos token)
    then (false, record { tokens = tokens; last = now })
    else (true, record { tokens = tokens +ℤ sub_ℕ 0 token; last = now })

abbrev pub full : Rate → ℕ → Bucket
full rate now = record { tokens = pos (rate.capacity * token); last = now }

-- The map of buckets: a list with each key once.
pub record Entry : Type 0 where
  pub key : String
  pub bucket : Bucket

pub record RateLimiter : Type 0 where
  pub entries : List Entry
  pub last_sweep : ℕ

abbrev pub new_limiter : ℕ → RateLimiter
new_limiter now = record { entries = []; last_sweep = now }

abbrev pub has_key : String → Entry → Bool
has_key key e = e.key == key

abbrev pub with_bucket : Bucket → Entry → Entry
with_bucket b e = record e { bucket = b }

abbrev pub hour : ℕ
hour = 3600 * token

abbrev pub is_stale : ℕ → Entry → Bool
is_stale now e = ltb (e.bucket.last + hour) now

-- sweepLocked
abbrev pub sweep : ℕ → RateLimiter → RateLimiter
sweep now rl = record { entries = delete (is_stale now) rl.entries; last_sweep = now }

abbrev pub make_room : ℕ → RateLimiter → RateLimiter
make_room now rl = if leb 10000 (length rl.entries) then sweep now rl else rl

abbrev pub store_new : String → Bool × Bucket → RateLimiter → Bool × RateLimiter
store_new key (allowed, b) rl =
    let e : Entry = record { key = key; bucket = b } in
    (allowed, record rl { entries = rl.entries ++ e ∷ [] })

abbrev pub store_again : String → Bool × Bucket → RateLimiter → Bool × RateLimiter
store_again key (allowed, b) rl =
    (allowed, record rl { entries = update (has_key key) (with_bucket b) rl.entries })

abbrev pub admit : Rate → String → ℕ → Option Entry → RateLimiter → Bool × RateLimiter
admit rate key now (some e) rl = store_again key (allow rate e.bucket now) rl
admit rate key now none rl = store_new key (allow rate (full rate now) now) (make_room now rl)

-- Allow
unfoldable pub allow_key : Rate → String → ℕ → RateLimiter → Bool × RateLimiter
allow_key rate key now rl = admit rate key now (find? (has_key key) rl.entries) rl

-- clientKey: the first hop of X-Forwarded-For if there is one, or the host of the peer address;
-- `split_host_port` is net.SplitHostPort, none where it returns an error.
abbrev pub is_blank_char : ℕ → Bool
is_blank_char c = eqb c b' ' || eqb c b'\t'

abbrev pub peer : String → Option String → String
peer address none = address
peer address (some host) = host

pub client_key : (String → Option String) → String → String → String
client_key split_host_port forwarded address =
    if forwarded == ""
    then peer address (split_host_port address)
    else trim is_blank_char (before b',' forwarded)
