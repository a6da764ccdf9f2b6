-- ===== src/Middleware/Outcomes.antt =====
-- The three ways in which a request ends behind the chain of cmd/gitcastle/main.go.
use git_castle.Middleware.RateLimit.{client_key, allow_key, RateLimiter, Rate}
use git_castle.Middleware.Wire.{
  returned, panics, write, writes, sent_once, assign_header, write_header, panicked, writes_header,
  acting, sets, set_header, Exit, Line, Head, Wire, Request, Action, play,
}
use git_castle.Prelude.{
  subst, ◌++◌, ℕ, not, refl, [], ◌∙◌, sym, false, true, ◌∷◌, none, Bool, ◌≡◌, ap, false≢true,
  Option, ◌≢◌, String, List, some,
}
use git_castle.Middleware.Chain.{
  refusal, admitted, logged, recovered, panic_body, security_headers, set_all, id_of, hardened,
}
use git_castle.Middleware.Hardened.{fresh_wire}
use git_castle.Prelude.Text.{append}
use text.Mathlib.TextLemmas.{nil-append}

play-lines : (actions : List Action) (w : Wire) → (play actions w).1.lines ≡ w.lines
unfolding play
play-lines [] w = refl
play-lines (sets key value ∷ rest) w = play-lines rest (set_header key value w)
play-lines (writes_header status ∷ rest) w = play-lines rest (write_header status w)
play-lines (writes text ∷ rest) w = play-lines rest (write text w)
play-lines (panics abort ∷ rest) w = refl

some≢none : {A : Type 0} {x : A} → some x ≢ Option.none
some≢none e = false≢true (ap (λ o. elim o as (λ _. Bool) [ none ↦ true | some _ ↦ false ]) e)

play-sent :
    (actions : List Action) (w : Wire) (head : Head)
    → w.sent ≡ some head
    → (play actions w).1.sent ≡ some head
unfolding play
play-sent [] w head h = h
play-sent (sets key value ∷ rest) w head h = play-sent rest (set_header key value w) head h
play-sent (writes_header status ∷ rest) w head h =
    play-sent rest (write_header status w) head (ap (sent_once status w.headers) h)
play-sent (writes text ∷ rest) w head h =
    play-sent rest (write text w) head (ap (sent_once 200 w.headers) h)
play-sent (panics abort ∷ rest) w head h = h

-- Nothing is written as long as no status is sent.
play-unsent :
    (actions : List Action) (w : Wire)
    → w.sent ≡ none
    → w.body ≡ ""
    → (play actions w).1.sent ≡ none
    → (play actions w).1.body ≡ ""
unfolding play
play-unsent [] w h b u = b
play-unsent (sets key value ∷ rest) w h b u = play-unsent rest (set_header key value w) h b u
play-unsent (writes_header status ∷ rest) w h b u = absurd (
    some≢none
      (sym (play-sent rest (write_header status w) _ (ap (sent_once status w.headers) h)) ∙ u))
play-unsent (writes text ∷ rest) w h b u =
    absurd (some≢none (sym (play-sent rest (write text w) _ (ap (sent_once 200 w.headers) h)) ∙ u))
play-unsent (panics abort ∷ rest) w h b u = b

module _ (rate : Rate) (split_host_port : String → Option String) (actions : Request → List Action)
    (r : Request) (limiter : RateLimiter) (lines : List Line) where
  abbrev pub verdict : Bool × RateLimiter
  verdict = allow_key rate (client_key split_host_port r.forwarded r.remote_addr) r.arrived limiter

  -- The request and the response writer that the handler gets
  abbrev pub inner : Request
  inner = record r { context_id = id_of r }

  abbrev pub ready : Wire
  ready =
      record (set_header "X-Request-ID" (id_of r)
        (set_all security_headers (fresh_wire limiter lines))) { limiter = verdict.1 }

  abbrev pub outcome : Exit × Wire
  outcome = hardened rate split_host_port (acting actions) r (fresh_wire limiter lines)

  abbrev pub played : Exit × Wire
  played = play (actions inner) ready

  abbrev chained : Bool × RateLimiter → Exit × Wire
  chained v =
      recovered (id_of r)
        (logged inner (admitted (acting actions) inner (record ready { limiter = limiter }) v))

  chained_refused :
      (v : Bool × RateLimiter)
      → v.0 ≡ false
      → chained v
        ≡ recovered (id_of r) (logged inner (returned, refusal (record ready { limiter = v.1 })))
  chained_refused (true, l) h = absurd (false≢true (sym h))
  chained_refused (false, l) h = refl

  chained_admitted :
      (v : Bool × RateLimiter)
      → v.0 ≡ true
      → chained v
        ≡ recovered (id_of r) (logged inner (play (actions inner) (record ready { limiter = v.1 })))
  chained_admitted (true, l) h = refl
  chained_admitted (false, l) h = absurd (false≢true h)

  abbrev answered : Wire → Wire
  answered w =
      write (panic_body (id_of r))
        (write_header 500 (set_header "Content-Type" "application/json" w))

  abbrev is_panic : Exit → Bool
  is_panic returned = false
  is_panic (panicked abort) = not abort

  recovered_panic :
      (out : Exit × Wire)
      → out.0 ≡ panicked false
      → recovered (id_of r) (logged inner out) ≡ (returned, answered out.1)
  recovered_panic (returned, w) h = absurd (false≢true (ap is_panic h))
  recovered_panic (panicked true, w) h = absurd (false≢true (ap is_panic h))
  recovered_panic (panicked false, w) h = refl

  -- What the client gets, and the access log
  abbrev pub Answers : Exit × Wire → ℕ → String → List Line → Type 0
  Answers (exit, w) status text log =
      ((head : Head) × (w.sent ≡ some head) × (head.status ≡ status))
      × (w.body ≡ text)
      × (w.lines ≡ log)

  Answers-answered :
      (w : Wire)
      → w.sent ≡ none
      → w.body ≡ ""
      → w.lines ≡ lines
      → Answers (returned, answered w) 500 (panic_body (id_of r)) lines
  Answers-answered w unsent blank same = (
    (
      record { status = 500; headers = assign_header "Content-Type" "application/json" w.headers },
      ap
          (λ s.
            sent_once 200 (assign_header "Content-Type" "application/json" w.headers)
              (sent_once 500 (assign_header "Content-Type" "application/json" w.headers) s))
          unsent,
      refl,
    ),
    ap (λ b. append b (panic_body (id_of r))) blank ∙ nil-append _,
    same,
  )

  abbrev pub limit_text : String
  limit_text = "{\"error\":\"rate limit exceeded\"}"

  abbrev pub refused_line : Line
  refused_line = record { method = r.method; path = r.path; status = 429; request_id = id_of r }

  -- Behind the chain of main.go, when the rate limiter refuses a request, the handler is not run:
  -- the answer is 429, and one line of the access log says so. When the limiter admits it and the
  -- handler panics before it has sent a status, other than with http.ErrAbortHandler, the answer is
  -- 500 with the request's ID in its body, and the access log gets no line.
  pub hardened_lem :
      (verdict.0 ≡ false → Answers outcome 429 limit_text (lines ++ refused_line ∷ []))
      × (verdict.0 ≡ true
          → played.0 ≡ panicked false
          → played.1.sent ≡ none
          → Answers outcome 500 (panic_body (id_of r)) lines)
  unfolding hardened set_all
  hardened_lem = (
    λ refused.
        subst (λ out. Answers out 429 limit_text (lines ++ refused_line ∷ []))
          (sym (chained_refused verdict refused)) ((_, refl, refl), nil-append _, refl),
    λ admits panicking unsent.
        subst (λ out. Answers out 500 (panic_body (id_of r)) lines)
          (sym (chained_admitted verdict admits ∙ recovered_panic played panicking))
          (Answers-answered played.1 unsent (play-unsent (actions inner) ready refl refl unsent)
            (play-lines (actions inner) ready)),
  )
