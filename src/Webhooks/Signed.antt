-- ===== src/Webhooks/Signed.antt =====
-- What Verify of internal/webhooks/webhooks.go finds in a request that is delivered.
use git_castle.Webhooks.Types.{Hook}
use git_castle.Webhooks.Dispatcher.{sign, verify, Network, Post, deliver, post_of}
use git_castle.Prelude.{
  ◌==◌, ◌↔◌, eq_iff, [], eq_refl, ◌∷◌, true, false, zero, All, ◌≡◌, suc, List, ℕ, String,
}
use git_castle.Prelude.Text.{append}
use git_castle.Prelude.Text.Laws.{cut_prefix-append}
use git_castle.Webhooks.Delivery.{deliver-Attempted}

-- What the receiver's check finds in the signature of a post for the hook.
module _ (net : Network) (hook : Hook) (payload : String) (signed : (hook.secret == "") ≡ false)
    (secret received : String) (set : (secret == "") ≡ false) where
  abbrev Genuine : Post → Type 0
  Genuine p =
      (verify net secret received p.signature ≡ true)
      ↔ (net.hmac secret received ≡ net.hmac hook.secret payload)

  post-Genuine : Genuine (post_of net hook payload)
  unfolding verify sign
  post-Genuine =
      let mine = net.hmac secret received in
      let theirs = net.hmac hook.secret payload in
      rw (signed, set)
        (
          (λ accepted.
              let same : append "sha256=" mine ≡ append "sha256=" theirs =
                (eq_iff (append "sha256=" mine) (append "sha256=" theirs)).0 accepted in
              let a = cut_prefix-append "sha256=" mine in
              let b = cut_prefix-append "sha256=" theirs in cc),
          (λ same. rw same (eq_refl (append "sha256=" theirs))),
        )

  posts-Genuine :
      (posts : List Post) → All (λ p. p ≡ post_of net hook payload) posts → All Genuine posts
  posts-Genuine [] same = tt
  posts-Genuine (p ∷ posts) (here, rest) = (rw here post-Genuine, posts-Genuine posts rest)

  -- For a hook with a secret, and a receiver that has one, Verify accepts the signature of a request
  -- that a delivery sends, together with the payload that was received, exactly when the HMAC of
  -- that payload under the receiver's secret is the HMAC of the hook's payload under the hook's
  -- secret: so whatever is changed is refused unless the HMAC does not tell it apart.
  pub deliver-verified : (retries : ℕ) → All Genuine (deliver net hook payload retries 0 0).1
  unfolding deliver
  deliver-verified zero = tt
  deliver-verified (suc left) =
      let (last, from, many, same, result, before, end) =
        deliver-Attempted net hook payload left 0 0 in
      posts-Genuine _ same
