-- ===== src/Tests/Webhooks.antt =====
-- Witnesses for internal/webhooks.
use git_castle.Prelude.{
  ◌↔◌, ◌++◌, false, ltb, arith, ◌≡◌, true, some, if◌then◌else◌, ◌∷◌, [], All, refl,
}
use git_castle.Tests.Samples.{server}
use git_castle.Db.{Db}
use git_castle.Webhooks.Delivery.{
  hooks_for, dispatch_lem, outcome_of, summary, posts_to, deliver_lem, Attempted,
}
use git_castle.Webhooks.Signed.{deliver-verified}
use git_castle.Webhooks.Dispatcher.{verify, deliver, dispatch, Network}
use git_castle.Webhooks.Types.{Hook}
use git_castle.Prelude.Int.{pos}
use git_castle.Prelude.Text.{append}
use mathlib.Core.List.{map}

abbrev hook : Hook
hook = record { id = 1; url = "https://ci.example"; secret = "k"; events = "push" ∷ [] }

-- A server that answers 500 twice, and 200 from then on.
abbrev net : Network
net = record {
  hmac = λ secret payload. append secret payload;
  answer = λ post n. if ltb n 2 then 500 else 200;
  is_done = λ h n. false;
}

deliver_lem_example : Attempted net hook "{}" 3 0 (deliver net hook "{}" 3 0 0)
deliver_lem_example = deliver_lem net hook "{}" 3 (omega arith)

-- A receiver with the hook's secret that gets another payload
deliver-verified_example :
    All
      (λ p. (verify net "k" "[]" p.signature ≡ true) ↔ (net.hmac "k" "[]" ≡ net.hmac "k" "{}"))
      (deliver net hook "{}" 3 0 0).1
deliver-verified_example = deliver-verified net hook "{}" refl "k" "[]" refl 3

abbrev tables : Db
tables = record (server "open" [] []) {
  hooks = record { repository_id = 1; hook = hook; active = true } ∷ [];
  hook_seq = 2;
}

dispatch_lem_example :
    let after = dispatch net (pos 0) 1 "push" (some "{}") tables in
    let hooks = hooks_for 1 "push" tables.hooks in
    (after.0 ≡ posts_to net 3 "{}" hooks)
    × (tables.outages ≡ []
        → map summary after.1.deliveries
          ≡ map summary tables.deliveries ++ map (outcome_of net 3 "push" "{}") hooks)
unfolding git_castle.Db.down
dispatch_lem_example = dispatch_lem net (pos 0) 1 "push" "{}" tables refl
