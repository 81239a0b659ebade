-- ===== src/Subscription/Silence.antt =====
-- The timer of `checkIfLive` in internal/block_subscription/abstract_block_subscription.ts. A restart
-- goes on, after what is here, with the steps of `subscribe`.
use chain_indexer_framework.Prelude.{
  ◌≡◌, refl, ◌∙◌, inl, inr, true, String, Bool-cases, if◌then◌else◌,
}
use chain_indexer_framework.Prelude.Int.{ℤ}
use chain_indexer_framework.Prelude.Text.{◌++ˢ◌}
use chain_indexer_framework.Errors.Value.{JsValue, object, text}
use chain_indexer_framework.Errors.Convert.{block_producer_create_unknown}
use chain_indexer_framework.Store.{Outcome, done, failed}
use chain_indexer_framework.Subscription.State.{Subscription, reports, logged}
use chain_indexer_framework.Subscription.Live.{answered, unsubscribe, begin_subscription, is_silent}

-- Whether the next timer is set, with the hash that it compares, or a restart has begun or failed.
pub data Watch : Type 0 where
  rearmed : (last_block_hash : String) → Watch
  restarts gives_up : Watch

module _ (trace : String) (print : JsValue → String) where
  -- The `catch`, with `${error}`.
  abbrev pub report_restart : JsValue → Subscription → Subscription × Watch
  report_restart e s = (
    logged
        (reports (
          block_producer_create_unknown trace
            (text ("Error when restarting producer: " ++ˢ print e)) true))
        s,
    gives_up,
  )

  -- `subscribe` at the next block, as far as the number of the finalized block, which it asks for first.
  abbrev pub resubscribe : Outcome ℤ → Subscription → Subscription × Watch
  resubscribe (failed e) s = report_restart (object (block_producer_create_unknown trace e true)) s
  resubscribe (done n) s = (begin_subscription n s.next_block s, restarts)

  abbrev pub after_unsubscribing :
      Outcome ℤ → Subscription × Outcome (Unit {0}) → Subscription × Watch
  after_unsubscribing finalized (s, failed e) = report_restart e s
  after_unsubscribing finalized (s, done _) = resubscribe finalized s

  unfoldable pub on_live_timer :
      (answer : Outcome (Unit {0})) (finalized : Outcome ℤ) (last_block_hash : String)
      → Subscription
      → Subscription × Watch
  unfolding unsubscribe begin_subscription is_silent
  on_live_timer answer finalized last_block_hash s =
      if is_silent last_block_hash s
      then after_unsubscribing finalized (unsubscribe trace answer s)
      else (s, rearmed s.last_block_hash)

  unsubscribed_next :
      (answer : Outcome (Unit {0})) (s : Subscription)
      → (unsubscribe trace answer s).0.next_block ≡ s.next_block
  unfolding unsubscribe
  unsubscribed_next answer s = elim (Bool-cases s.has_subscription) [
    | inl on ↦ rw on (answered_next answer _)
    | inr off ↦ rw off refl
  ]
    where
      answered_next :
          (answer : Outcome (Unit {0})) (s : Subscription)
          → (answered trace answer s).0.next_block ≡ s.next_block
      answered_next (done u) s = refl
      answered_next (failed e) s = refl

  after_unsubscribing_next :
      (finalized : Outcome ℤ) (r : Subscription × Outcome (Unit {0}))
      → (after_unsubscribing finalized r).0.next_block ≡ r.0.next_block
  unfolding begin_subscription
  after_unsubscribing_next finalized (s, failed e) = refl
  after_unsubscribing_next (failed x) (s, done u) = refl
  after_unsubscribing_next (done n) (s, done u) = refl

  -- Whatever the node answers, and whether the subscription is silent or not, the timer leaves the number
  -- of the block that is to be emitted next.
  on_live_timer_next :
      (answer : Outcome (Unit {0})) (finalized : Outcome ℤ) (last_block_hash : String)
      (s : Subscription)
      → (on_live_timer answer finalized last_block_hash s).0.next_block ≡ s.next_block
  unfolding on_live_timer
  on_live_timer_next answer finalized last_block_hash s =
      elim (Bool-cases (is_silent last_block_hash s)) [
        | inl silent ↦ rw silent (
            after_unsubscribing_next finalized (unsubscribe trace answer s)
            ∙ unsubscribed_next answer s)
        | inr live ↦ rw live refl
      ]
