-- ===== src/Middleware/Hardened.antt =====
-- What the chain of cmd/gitcastle/main.go guarantees of every answer.
use git_castle.Middleware.Chain.{
  id_of, admitted, security_headers, refusal, recovered, logged, set_all, hardened,
}
use git_castle.Middleware.Marked.{
  set_header-IsMarked, play-IsMarked, Bears, write_header-IsMarked, write-IsMarked, IsPlainAction,
  IsMarked, is_reserved,
}
use git_castle.Middleware.RateLimit.{client_key, allow_key, Rate, RateLimiter}
use git_castle.Middleware.Wire.{
  sent_once, acting, returned, panicked, finish, set_header, Head, assign_header, Line, Action,
  header, Wire, Exit, Request,
}
use git_castle.Prelude.{
  true, ap, some, false≢true, refl, none, false, [], Bool, All, ◌≡◌, Option, any, List, String,
}

-- A response writer for a new request
abbrev pub fresh_wire : RateLimiter → List Line → Wire
fresh_wire limiter lines = record {
  headers = [];
  sent = none;
  body = "";
  recorded = none;
  lines = lines;
  limiter = limiter;
}

-- A part of the chain keeps the marks.
abbrev Marks : String → Exit × Wire → Type 0
Marks id (exit, w) = IsMarked id w

content_type_free : is_reserved "Content-Type" ≡ false
unfolding is_reserved any
content_type_free = refl

retry_after_free : is_reserved "Retry-After" ≡ false
unfolding is_reserved any
retry_after_free = refl

refusal-IsMarked : (id : String) (w : Wire) → IsMarked id w → IsMarked id (refusal w)
refusal-IsMarked id w m = write-IsMarked id _ _ (
    write_header-IsMarked id 429 _ (
      set_header-IsMarked id "Content-Type" "application/json" _ content_type_free
        (set_header-IsMarked id "Retry-After" "1" w retry_after_free m)))

module _ (actions : Request → List Action) (id : String) where
  admitted-Marks :
      (r : Request) (w : Wire) (verdict : Bool × RateLimiter)
      → All IsPlainAction (actions r)
      → IsMarked id w
      → Marks id (admitted (acting actions) r w verdict)
  admitted-Marks r w (true, limiter) plain m =
      play-IsMarked id (actions r) (record w { limiter = limiter }) plain
        (record { pending = m.pending; gone = m.gone })
  admitted-Marks r w (false, limiter) plain m =
      refusal-IsMarked id (record w { limiter = limiter })
        (record { pending = m.pending; gone = m.gone })

  logged-Marks : (r : Request) (out : Exit × Wire) → Marks id out → Marks id (logged r out)
  logged-Marks r (returned, w) m = record { pending = m.pending; gone = m.gone }
  logged-Marks r (panicked abort, w) m = m

  recovered-Marks :
      (out : Exit × Wire)
      → Marks id out
      → ((recovered id out).0 ≡ returned) × Marks id (recovered id out)
  recovered-Marks (returned, w) m = (refl, m)
  recovered-Marks (panicked true, w) m = (refl, m)
  recovered-Marks (panicked false, w) m = (
    refl,
    write-IsMarked id _ _ (
        write_header-IsMarked id 500 _
          (set_header-IsMarked id "Content-Type" "application/json" w content_type_free m)),
  )

finish-sent :
    (id : String) (w : Wire)
    → IsMarked id w
    → (head : Head) × ((finish w).sent ≡ some head) × Bears id head.headers
finish-sent id w m = go w.sent m.gone
  where
    go :
        (sent : Option Head)
        → ((head : Head) → sent ≡ some head → Bears id head.headers)
        → (head : Head) × (sent_once 200 w.headers sent ≡ some head) × Bears id head.headers
    go none gone = (record { status = 200; headers = w.headers }, refl, m.pending)
    go (some head) gone = (head, refl, gone head refl)

start :
    (id : String) (limiter : RateLimiter) (lines : List Line)
    → IsMarked id
        (set_header "X-Request-ID" id (set_all security_headers (fresh_wire limiter lines)))
unfolding set_all header assign_header
start id limiter lines = record {
  pending = (refl, (refl, (refl, (refl, (refl, tt)))));
  gone = λ head h.
      absurd (false≢true (ap (λ o. elim o as (λ _. Bool) [ none ↦ false | some _ ↦ true ]) h));
}

-- Behind the chain of main.go, whatever a handler does that leaves the ID and the security headers
-- alone, a panic included, and whatever the rate limiter says: the server gets an answer, and its
-- headers hold the request's ID, the one that came with the request if it has 8 to 128 bytes, and
-- every security header with its value.
pub hardened-Bears :
    (rate : Rate) (split_host_port : String → Option String) (actions : Request → List Action)
    (r : Request) (limiter : RateLimiter) (lines : List Line)
    → ((context : String) → All IsPlainAction (actions (record r { context_id = context })))
    → let (exit, w) = hardened rate split_host_port (acting actions) r (fresh_wire limiter lines) in
      (exit ≡ returned)
      × ((head : Head) × ((finish w).sent ≡ some head) × Bears (id_of r) head.headers)
unfolding hardened set_all
hardened-Bears rate split_host_port actions r limiter lines plain =
    let id = id_of r in
    let s : Request = record r { context_id = id } in
    let w = set_header "X-Request-ID" id (set_all security_headers (fresh_wire limiter lines)) in
    let verdict =
      allow_key rate (client_key split_host_port r.forwarded r.remote_addr) r.arrived limiter in
    let out = logged s (admitted (acting actions) s (record w { recorded = none }) verdict) in
    let marked : Marks id out = logged-Marks actions id s _ (
      admitted-Marks actions id s (record w { recorded = none }) verdict (plain id)
        (start id limiter lines)) in
    let (exits, marks) = recovered-Marks actions id out marked in
    (exits, finish-sent id (recovered id out).1 marks)
