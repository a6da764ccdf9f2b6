-- ===== src/Webhooks/Dispatcher.antt =====
-- Dispatcher, Sign and Verify of internal/webhooks/webhooks.go. Outside of this repository are
-- HMAC-SHA256 and the subscribers' servers.
use git_castle.Webhooks.Types.{Hook}
use git_castle.Webhooks.Store.{list_hooks, record_delivery, is_success}
use git_castle.Prelude.{
  zero, ◌||◌, suc, none, some, [], ◌++◌, true, ◌∷◌, ◌==◌, eqb, if◌then◌else◌, Option, List, Bool, ℕ,
  String,
}
use git_castle.Prelude.Int.{negsuc, pos, ℤ}
use git_castle.Db.{Db}
use git_castle.Errors.{ok, err, Result}
use git_castle.Prelude.Text.{append}

pub record Post : Type 0 where
  pub url : String
  pub event : String
  pub signature : String
  pub payload : String

pub record Network : Type 0 where
  -- the hex digits of the HMAC of a payload under a secret
  pub hmac : (secret payload : String) → String
  -- the status that a request gets at its n-th attempt, 0 if it cannot be sent
  pub answer : Post → ℕ → ℕ
  -- whether the context is done after the n-th attempt for a hook
  pub is_done : Hook → ℕ → Bool

-- Sign
unfoldable pub sign : Network → String → String → String
sign net secret payload = if secret == "" then "" else append "sha256=" (net.hmac secret payload)

-- Verify
unfoldable pub verify : Network → String → String → String → Bool
verify net secret payload signature =
    if secret == "" then true else sign net secret payload == signature

-- eventTypeHeader
abbrev pub event_type_header : Hook → String
event_type_header hook = first hook.events
  where
    first : List String → String
    first [] = ""
    first (event ∷ _) = event

-- The request of deliverOnce
abbrev pub post_of : Network → Hook → String → Post
post_of net hook payload = record {
  url = hook.url;
  event = event_type_header hook;
  signature = sign net hook.secret payload;
  payload = payload;
}

-- deliverWithRetries: the attempts that are left, the number of the next one, and the last status
unfoldable pub deliver : Network → Hook → String → ℕ → ℕ → ℕ → ℕ × List Post
deliver net hook payload zero attempt status = (status, [])
deliver net hook payload (suc left) attempt status =
    let post = post_of net hook payload in
    let answer = net.answer post attempt in
    let rest = deliver net hook payload left (suc attempt) answer in
    if is_success answer || net.is_done hook attempt
    then (answer, post ∷ [])
    else (rest.0, post ∷ rest.1)

abbrev pub retries_of : ℤ → ℕ
retries_of (pos n) = if eqb n 0 then 3 else n
retries_of (negsuc n) = 3

-- The loop over the hooks; an error of RecordDelivery is logged.
unfoldable pub deliver_all : Network → ℕ → String → String → List Hook → Db → List Post × Db
deliver_all net retries event payload [] s = ([], s)
deliver_all net retries event payload (hook ∷ hooks) s =
    let (status, posts) = deliver net hook payload retries 0 0 in
    let t = (record_delivery hook.id event payload status s).1 in
    let (rest, u) = deliver_all net retries event payload hooks t in (posts ++ rest, u)

abbrev pub dispatch_to :
    Network → ℕ → String → Option String → Result (List Hook) × Db → List Post × Db
dispatch_to net retries event payload (err e, s) = ([], s)
dispatch_to net retries event none (ok hooks, s) = ([], s)
dispatch_to net retries event (some payload) (ok hooks, s) =
    deliver_all net retries event payload hooks s

-- Dispatch; the payload is none where json.Marshal returns an error.
unfoldable pub dispatch : Network → ℤ → ℕ → String → Option String → Db → List Post × Db
dispatch net max_retries repo event payload s =
    dispatch_to net (retries_of max_retries) event payload (list_hooks repo event s)
