-- ===== src/Webhooks/Delivery.antt =====
-- What a dispatch posts and records.
use mathlib.Core.List.{append-nil}
use git_castle.Webhooks.Types.{HookRow, DeliveryRow, Hook}
use git_castle.Webhooks.Store.{
  subscribes, list_hooks, delivery_row, insert_delivery, record_delivery, is_success, matching,
}
use git_castle.Webhooks.Dispatcher.{
  retries_of, dispatch, deliver_all, Network, Post, deliver, post_of,
}
use git_castle.Prelude.{
  any, ◌&&◌, eqb, if◌then◌else◌, filter, some, ◌==◌, map-snoc, ◌∙◌, sym, [], ap, ◌++◌, ◌∷◌, subst,
  refl, ◌⊎◌, true, false, ◌<◌, zero, All, ◌≡◌, inr, ◌+◌, arith, ◌||◌, length, inl, ◌≤◌, Bool-cases,
  suc, List, Bool, ℕ, String,
}
use git_castle.Db.{later, down, Db}
use mathlib.Core.List.{map}
use git_castle.Exec.{next, statement_up, statement}
use git_castle.Prelude.Int.{ℤ}

-- After the n-th attempt no other follows.
abbrev pub stops : Network → Hook → String → ℕ → Bool
stops net hook payload n =
    is_success (net.answer (post_of net hook payload) n) || net.is_done hook n

-- All posts are the hook's request; `last` is the attempt whose status is the result.
abbrev pub Attempted : Network → Hook → String → ℕ → ℕ → ℕ × List Post → Type 0
Attempted net hook payload retries attempt (status, posts) =
    (last : ℕ) × (attempt ≤ last)
    × (length posts + attempt ≡ suc last)
    × All (λ p. p ≡ post_of net hook payload) posts
    × (status ≡ net.answer (post_of net hook payload) last)
    × ((n : ℕ) → attempt ≤ n → n < last → stops net hook payload n ≡ false)
    × ((stops net hook payload last ≡ true) ⊎ (suc last ≡ attempt + retries))

pub deliver-Attempted :
    (net : Network) (hook : Hook) (payload : String) (left attempt status : ℕ)
    → Attempted net hook payload
        (suc left)
        attempt
        (deliver net hook payload (suc left) attempt status)
unfolding deliver
deliver-Attempted net hook payload zero attempt status =
    elim (Bool-cases (stops net hook payload attempt)) [
      | inl stop ↦ rw stop (
        attempt,
        omega arith,
        omega arith,
        (refl, tt),
        refl,
        (λ n le lt. absurd (omega arith)),
        inl stop,
      )
      | inr go_on ↦ rw go_on (
        attempt,
        omega arith,
        omega arith,
        (refl, tt),
        refl,
        (λ n le lt. absurd (omega arith)),
        inr (omega arith),
      )
    ]
deliver-Attempted net hook payload (suc left) attempt status =
    elim (Bool-cases (stops net hook payload attempt)) [
      | inl stop ↦ rw stop (
        attempt,
        omega arith,
        omega arith,
        (refl, tt),
        refl,
        (λ n le lt. absurd (omega arith)),
        inl stop,
      )
      | inr go_on ↦
          let (last, from, many, same, result, before, end) =
            deliver-Attempted net hook payload left (suc attempt)
              (net.answer (post_of net hook payload) attempt) in
          rw go_on (
            last,
            omega arith,
            omega arith,
            (refl, same),
            result,
            (λ n le lt.
                let at : (attempt ≡ n) ⊎ (suc attempt ≤ n) = ground arith in
                elim at [
                  | inl here ↦ subst (λ m. stops net hook payload m ≡ false) here go_on
                  | inr later ↦ before n later lt
                ]),
            elim end [ inl stop ↦ inl stop | inr spent ↦ inr (omega arith) ],
          )
    ]

-- A delivery makes at least one attempt and at most the given number, in order, each with the
-- hook's signed request; it goes on exactly while the status is not 2xx and the context is not done,
-- and its result is the status of the last attempt.
pub deliver_lem :
    (net : Network) (hook : Hook) (payload : String) (retries : ℕ)
    → 0 < retries
    → Attempted net hook payload retries 0 (deliver net hook payload retries 0 0)
deliver_lem net hook payload zero some_left = absurd (omega arith)
deliver_lem net hook payload (suc left) some_left = deliver-Attempted net hook payload left 0 0

-- The posts of all hooks, and the columns of the rows that record them.
pub posts_to : Network → ℕ → String → List Hook → List Post
posts_to net retries payload [] = []
posts_to net retries payload (hook ∷ hooks) =
    (deliver net hook payload retries 0 0).1 ++ posts_to net retries payload hooks

abbrev pub summary : DeliveryRow → ℕ × String × String × ℕ
summary row = (row.webhook_id, row.event_type, row.payload, row.status)

abbrev pub outcome_of : Network → ℕ → String → String → Hook → ℕ × String × String × ℕ
outcome_of net retries event payload hook =
    (hook.id, event, payload, (deliver net hook payload retries 0 0).0)

deliver_all-posts :
    (net : Network) (retries : ℕ) (event payload : String) (hooks : List Hook) (s : Db)
    → (deliver_all net retries event payload hooks s).0 ≡ posts_to net retries payload hooks
unfolding deliver_all posts_to
deliver_all-posts net retries event payload [] s = refl
deliver_all-posts net retries event payload (hook ∷ hooks) s =
    ap (λ rest. (deliver net hook payload retries 0 0).1 ++ rest)
      (deliver_all-posts net retries event payload hooks _)

deliver_all-rows :
    (net : Network) (retries : ℕ) (event payload : String) (hooks : List Hook) (s : Db)
    → s.outages ≡ []
    → let after = (deliver_all net retries event payload hooks s).1 in
      map summary after.deliveries
      ≡ map summary s.deliveries ++ map (outcome_of net retries event payload) hooks
unfolding deliver_all record_delivery insert_delivery
deliver_all-rows net retries event payload [] s up = sym (append-nil (map summary s.deliveries))
deliver_all-rows net retries event payload (hook ∷ hooks) s up =
    let status = (deliver net hook payload retries 0 0).0 in
    let row = delivery_row s.delivery_seq s.clock hook.id event payload status in
    let t = (record_delivery hook.id event payload status s).1 in
    rw (statement_up "record delivery" (insert_delivery hook.id event payload status) s up) (
      deliver_all-rows net retries event payload hooks
        (record s { deliveries = s.deliveries ++ row ∷ []; delivery_seq = suc s.delivery_seq }) up
      ∙ map-snoc summary s.deliveries row (map (outcome_of net retries event payload) hooks))

-- The active hooks of a repository that name an event, or all of them for the empty event
pub hooks_for : ℕ → String → List HookRow → List Hook
hooks_for repo event [] = []
hooks_for repo event (row ∷ rows) =
    let rest = hooks_for repo event rows in
    if eqb row.repository_id repo
      && row.active
      && (event == "" || any (λ name. name == event) row.hook.events)
    then row.hook ∷ rest
    else rest

matching-hooks_for :
    (repo : ℕ) (event : String) (rows : List HookRow)
    → map (λ row. row.hook) (filter (subscribes repo event) rows) ≡ hooks_for repo event rows
unfolding filter hooks_for
matching-hooks_for repo event [] = refl
matching-hooks_for repo event (row ∷ rows) =
    let rest = matching-hooks_for repo event rows in
    elim (Bool-cases (event == "")) [
      | inl all ↦ rw all (ground (arith, rest))
      | inr one ↦ rw one (ground (arith, rest))
    ]

-- When the hooks can be read, Dispatch posts to the active hooks of the repository that subscribe to
-- the event, in the order of the table, and to no other, whether or not its records can be written.
-- Without outages it adds one delivery row for each of them, with the hook's id, the event, the
-- payload and the status of the last attempt, and keeps the rows before.
pub dispatch_lem :
    (net : Network) (max_retries : ℤ) (repo : ℕ) (event payload : String) (s : Db)
    → down s.outages ≡ false
    → let after = dispatch net max_retries repo event (some payload) s in
      let hooks = hooks_for repo event s.hooks in
      let retries = retries_of max_retries in
      (after.0 ≡ posts_to net retries payload hooks)
      × (s.outages ≡ []
          → map summary after.1.deliveries
            ≡ map summary s.deliveries ++ map (outcome_of net retries event payload) hooks)
unfolding dispatch list_hooks statement later
dispatch_lem net max_retries repo event payload s up =
    let retries = retries_of max_retries in
    let hooks = matching-hooks_for repo event s.hooks in
    rw (up, sym hooks)
      (
        deliver_all-posts net retries event payload (matching repo event s) _,
        λ none_down.
            deliver_all-rows net retries event payload (matching repo event s) (next s)
              (ap later none_down),
      )
