-- ===== src/Middleware/Wire.antt =====
-- Go's http.ResponseWriter, and handlers of requests, as the middleware of internal/middleware sees
-- them. A handler panics or returns; what it wrote before a panic stays written.
use git_castle.Prelude.{◌==◌, [], some, none, if◌then◌else◌, ◌∷◌, Option, ℕ, String, List, Bool}
use git_castle.Prelude.Text.{append}
use git_castle.Middleware.RateLimit.{RateLimiter}

pub record Request : Type 0 where
  pub method : String
  pub path : String
  -- the headers X-Request-ID and X-Forwarded-For; empty if missing
  pub request_id : String
  pub forwarded : String
  pub remote_addr : String
  -- what the random source or, if it fails, the clock gives to newRequestID
  pub fresh_id : String
  -- the time that the rate limiter reads
  pub arrived : ℕ
  -- the request ID in the context
  pub context_id : String

-- The status and the headers that were sent
pub record Head : Type 0 where
  pub status : ℕ
  pub headers : List (String × String)

-- A line of the access log
pub record Line : Type 0 where
  pub method : String
  pub path : String
  pub status : ℕ
  pub request_id : String

pub record Wire : Type 0 where
  pub headers : List (String × String)
  pub sent : Option Head
  pub body : String
  -- the statusRecorder of AccessLog: the first status that went through it
  pub recorded : Option ℕ
  pub lines : List Line
  pub limiter : RateLimiter

pub data Exit : Type 0 where
  returned : Exit
  -- a panic, with http.ErrAbortHandler or not
  panicked : (abort : Bool) → Exit

abbrev pub Handler : Type 0
Handler = Request → Wire → Exit × Wire

-- Header().Set
unfoldable pub assign_header : String → String → List (String × String) → List (String × String)
assign_header key value [] = (key, value) ∷ []
assign_header key value ((k, v) ∷ rest) =
    let later = assign_header key value rest in
    if k == key then (k, value) ∷ rest else (k, v) ∷ later

unfoldable pub header : String → List (String × String) → Option String
header key [] = none
header key ((k, v) ∷ rest) = let later = header key rest in if k == key then some v else later

abbrev pub set_header : String → String → Wire → Wire
set_header key value w = record w { headers = assign_header key value w.headers }

abbrev pub first_status : ℕ → Option ℕ → Option ℕ
first_status status none = some status
first_status status (some earlier) = some earlier

abbrev pub sent_once : ℕ → List (String × String) → Option Head → Option Head
sent_once status headers none = some (record { status = status; headers = headers })
sent_once status headers (some head) = some head

-- WriteHeader; a second call is superfluous and does nothing.
abbrev pub write_header : ℕ → Wire → Wire
write_header status w = record w {
  sent = sent_once status w.headers w.sent;
  recorded = first_status status w.recorded;
}

-- Write, which sends the status 200 if no status was sent
abbrev pub write : String → Wire → Wire
write text w = record w { sent = sent_once 200 w.headers w.sent; body = append w.body text }

-- What the server does when the handler has returned
abbrev pub finish : Wire → Wire
finish w = record w { sent = sent_once 200 w.headers w.sent }

-- A handler that is not known but for what it does with its response writer
pub data Action : Type 0 where
  sets : (key value : String) → Action
  writes_header : (status : ℕ) → Action
  writes : (text : String) → Action
  panics : (abort : Bool) → Action

unfoldable pub play : List Action → Wire → Exit × Wire
play [] w = (returned, w)
play (sets key value ∷ rest) w = play rest (set_header key value w)
play (writes_header status ∷ rest) w = play rest (write_header status w)
play (writes text ∷ rest) w = play rest (write text w)
play (panics abort ∷ rest) w = (panicked abort, w)

abbrev pub acting : (Request → List Action) → Handler
acting actions r w = play (actions r) w
