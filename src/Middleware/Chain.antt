-- ===== src/Middleware/Chain.antt =====
-- internal/middleware/middleware.go and request.go, RateLimiter.Middleware, and the chain that
-- cmd/gitcastle/main.go builds. Loggers are set; only the access log is kept.
use git_castle.Middleware.RateLimit.{client_key, RateLimiter, allow_key, Rate}
use git_castle.Middleware.Wire.{
  returned, write_header, panicked, write, Line, Exit, set_header, Wire, Request, Handler,
}
use git_castle.Prelude.{
  false, ◌||◌, true, ◌++◌, some, ltb, [], ◌∷◌, ℕ, if◌then◌else◌, Bool, none, String, Option, List,
}
use git_castle.Prelude.Text.{byte_length, has_prefix, append}

abbrev pub Middleware : Type 0
Middleware = Handler → Handler

-- Chain: the loop goes from the last to the first.
pub chain : Handler → List Middleware → Handler
chain handler [] = handler
chain handler (m ∷ ms) = m (chain handler ms)

abbrev pub policy : String
policy =
    "default-src 'self'; style-src 'self' 'unsafe-inline' https://fonts.googleapis.com; font-src https://fonts.gstatic.com; img-src 'self' data:; script-src 'self'"

-- securityHeaders, in one of the orders in which Go may go through the map
abbrev pub security_headers : List (String × String)
security_headers =
    ("X-Content-Type-Options", "nosniff")
    ∷ ("X-Frame-Options", "DENY")
    ∷ ("Referrer-Policy", "strict-origin-when-cross-origin")
    ∷ ("Content-Security-Policy", policy)
    ∷ []

unfoldable pub set_all : List (String × String) → Wire → Wire
set_all [] w = w
set_all ((key, value) ∷ rest) w = set_all rest (set_header key value w)

-- SecureHeaders
abbrev pub secure_headers : Middleware
secure_headers next r w = next r (set_all security_headers w)

-- The ID that RequestID gives to a request
pub id_of : Request → String
id_of r =
    if ltb (byte_length r.request_id) 8 || ltb 128 (byte_length r.request_id)
    then r.fresh_id
    else r.request_id

-- RequestID
abbrev pub request_id : Middleware
request_id next r w =
    next (record r { context_id = id_of r }) (set_header "X-Request-ID" (id_of r) w)

abbrev pub panic_body : String → String
panic_body id = append "{\"error\":\"internal server error\",\"request_id\":\"" (append id "\"}")

abbrev pub recovered : String → Exit × Wire → Exit × Wire
recovered id (returned, w) = (returned, w)
recovered id (panicked true, w) = (returned, w)
recovered id (panicked false, w) = (
  returned,
  write (panic_body id) (write_header 500 (set_header "Content-Type" "application/json" w)),
)

-- Recovery; a panic with http.ErrAbortHandler is recovered too, without an answer.
abbrev pub recovery : Middleware
recovery next r w = recovered r.context_id (next r w)

abbrev pub status_or_ok : Option ℕ → ℕ
status_or_ok none = 200
status_or_ok (some status) = status

abbrev pub line_of : Request → Wire → Line
line_of r w = record {
  method = r.method;
  path = r.path;
  status = status_or_ok w.recorded;
  request_id = r.context_id;
}

abbrev pub logged : Request → Exit × Wire → Exit × Wire
logged r (returned, w) = (returned, record w { lines = w.lines ++ line_of r w ∷ [] })
logged r (panicked abort, w) = (panicked abort, w)

-- AccessLog
abbrev pub access_log : Middleware
access_log next r w = logged r (next r (record w { recorded = none }))

abbrev pub refusal : Wire → Wire
refusal w = write "{\"error\":\"rate limit exceeded\"}" (
    write_header 429
      (set_header "Content-Type" "application/json" (set_header "Retry-After" "1" w)))

abbrev pub admitted : Handler → Request → Wire → Bool × RateLimiter → Exit × Wire
admitted next r w (true, limiter) = next r (record w { limiter = limiter })
admitted next r w (false, limiter) = (returned, refusal (record w { limiter = limiter }))

-- RateLimiter.Middleware
abbrev pub limited : Rate → (String → Option String) → Middleware
limited rate split_host_port next r w =
    admitted next r w
      (allow_key rate (client_key split_host_port r.forwarded r.remote_addr) r.arrived w.limiter)

-- `hardened` of cmd/gitcastle/main.go
unfoldable pub hardened : Rate → (String → Option String) → Handler → Handler
unfolding chain
hardened rate split_host_port handler =
    chain handler
      (secure_headers ∷ request_id ∷ recovery ∷ access_log ∷ limited rate split_host_port ∷ [])

-- The server's mux: the pattern "/git/" is longer than "/", so that git's requests go to their own
-- handler, past the chain.
unfoldable served : Rate → (String → Option String) → Handler → Handler → Handler
served rate split_host_port git api r w =
    if has_prefix r.path "/git/" then git r w else hardened rate split_host_port api r w
