-- ===== src/Tests/Middleware.antt =====
-- Witnesses for internal/middleware.
use git_castle.Prelude.{
  true, some, ◌++◌, false, ◌≡◌, none, any, Option, arith, ◌≤◌, ◌+◌, [], ◌∷◌, ◌*◌, ℕ, String, List,
  refl,
}
use git_castle.Middleware.Limiter.{key_budget, admitted_for}
use git_castle.Middleware.RateLimit.{token, new_limiter, Rate}
use git_castle.Middleware.Marked.{Bears, is_reserved}
use git_castle.Middleware.Wire.{
  Request, panicked, finish, Head, returned, panics, acting, sets, Action,
}
use git_castle.Middleware.Chain.{panic_body, id_of, hardened}
use git_castle.Middleware.Outcomes.{
  hardened_lem, verdict, played, refused_line, limit_text, outcome, Answers,
}
use git_castle.Middleware.Hardened.{hardened-Bears, fresh_wire}

-- The limits of main.go.
abbrev rate : Rate
rate = record { capacity = 120; refill = 2 }

abbrev requests : List (String × ℕ)
requests = ("10.0.0.1", 1000) ∷ ("10.0.0.2", 2000) ∷ ("10.0.0.1", 2000) ∷ []

key_budget_example :
    admitted_for rate "10.0.0.1" (new_limiter 0) requests * token + 0 * 2 ≤ 120 * token + 2000 * 2
key_budget_example =
    key_budget rate "10.0.0.1" 0 requests (omega arith)
      (omega arith, (omega arith, (omega arith, tt)))

abbrev no_port : String → Option String
no_port address = none

abbrev incoming : Request
incoming = record {
  method = "GET";
  path = "/api/v1/me";
  request_id = "";
  forwarded = "";
  remote_addr = "10.0.0.1";
  fresh_id = "0123456789abcdef01234567";
  arrived = 5;
  context_id = "";
}

-- A handler that sets a header and panics
abbrev panicking : Request → List Action
panicking r = sets "Content-Language" "en" ∷ panics false ∷ []

hardened-Bears_example :
    let (exit, w) =
      hardened rate no_port (acting panicking) incoming (fresh_wire (new_limiter 0) []) in
    (exit ≡ returned)
    × ((head : Head) × ((finish w).sent ≡ some head) × Bears (id_of incoming) head.headers)
unfolding is_reserved any
hardened-Bears_example =
    hardened-Bears rate no_port panicking incoming (new_limiter 0) [] λ context. (refl, (tt, tt))

hardened_lem_example :
    ((verdict rate no_port panicking incoming (new_limiter 0) []).0 ≡ false
      → Answers rate no_port panicking incoming
          (new_limiter 0)
          []
          (outcome rate no_port panicking incoming (new_limiter 0) [])
          429
          (limit_text rate no_port panicking incoming (new_limiter 0) [])
          ([] ++ refused_line rate no_port panicking incoming (new_limiter 0) [] ∷ []))
    × ((verdict rate no_port panicking incoming (new_limiter 0) []).0 ≡ true
        → (played rate no_port panicking incoming (new_limiter 0) []).0 ≡ panicked false
        → (played rate no_port panicking incoming (new_limiter 0) []).1.sent ≡ none
        → Answers rate no_port panicking incoming
            (new_limiter 0)
            []
            (outcome rate no_port panicking incoming (new_limiter 0) [])
            500
            (panic_body (id_of incoming))
            [])
hardened_lem_example = hardened_lem rate no_port panicking incoming (new_limiter 0) []
