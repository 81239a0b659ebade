-- ===== src/Subscription/Linked.antt =====
-- The chain of the blocks that `processQueue` in
-- internal/block_subscription/abstract_block_subscription.ts hands to the observer.
use chain_indexer_framework.Prelude.{
  ℕ, ◌≡◌, refl, subst, inl, inr, false, String, Option, none, some, List, [], ◌∷◌, arith,
  Bool-cases,
}
use chain_indexer_framework.Prelude.Int.{ℤ, pos, ◌+ℤ◌, ltb_ℤ}
use chain_indexer_framework.Prelude.Text.{str_eq_iff}
use chain_indexer_framework.Errors.Value.{JsValue, object}
use chain_indexer_framework.Store.{Outcome}
use chain_indexer_framework.Subscription.State.{
  Block, LogEvent, WorkerResult, given, emits, Subscription, logged,
}
use chain_indexer_framework.Subscription.Live.{
  is_reached, needs_back_fill, breaks, is_re_orged_missed, on_block, on_settled, take_result,
  settle, on_log, on_subscription_error, begin_subscription, subscribe_to_logs, unsubscribe,
  chain_reorg,
}
use chain_indexer_framework.Subscription.BackFill.{on_latest_block, on_filled, next_job}
use chain_indexer_framework.Subscription.Keeping.{
  Keeps, emitted, Follows, IsChain, newest, IsLinked, Keeps-IsLinked, fail_block-Keeps,
  queue_loop-Keeps, hashed_log-Keeps, settle_filled-Keeps, back_fill_blocks-Keeps, next_job-Keeps,
  unsubscribe-Keeps,
}

not_breaking : (last block : Block) → breaks (some last) block ≡ false → Follows block last
not_breaking last block h = elim (Bool-cases (ltb_ℤ last.number block.number)) [
  | inl up ↦ inr ((str_eq_iff last.hash block.parent_hash).0 (ground (arith, h, up)))
  | inr low ↦ inl (ground (arith, low))
]

emit-IsChain :
    (block : Block) (bs : List Block)
    → breaks (newest bs) block ≡ false
    → IsChain bs
    → IsChain (block ∷ bs)
emit-IsChain block [] h c = tt
emit-IsChain block (a ∷ rest) h c = (not_breaking a block h, c)

on_block-IsLinked :
    (trace : String) (block : Block) (s : Subscription)
    → IsLinked s
    → IsLinked (on_block trace block s)
unfolding on_block is_re_orged_missed
on_block-IsLinked trace block s h = elim (Bool-cases (breaks s.last_emitted_block block)) [
  | inl broken ↦ rw broken (
      Keeps-IsLinked (fail_block-Keeps trace (object chain_reorg) _)
        (record { chain = h.chain; last = h.last }))
  | inr whole ↦
      let next : Subscription =
        logged (emits block)
          (record s { next_block = block.number +ℤ pos 1; last_emitted_block = some block }) in
      let linked : IsLinked next = record {
        chain =
            emit-IsChain block (emitted s.log) (subst (λ l. breaks l block ≡ false) h.last whole)
              h.chain;
        last = refl;
      } in
      rw whole (Keeps-IsLinked (queue_loop-Keeps next) linked)
]

take_result-IsLinked :
    (trace : String) (block : Block) (e : Option JsValue) (s : Subscription)
    → IsLinked s
    → IsLinked (take_result trace block e s)
take_result-IsLinked trace block none s h = on_block-IsLinked trace block s h
take_result-IsLinked trace block (some e) s h = Keeps-IsLinked (fail_block-Keeps trace e s) h

settle-IsLinked :
    (trace : String) (a : Option ℤ) (result : WorkerResult) (s : Subscription)
    → IsLinked s
    → IsLinked (settle trace a result s)
settle-IsLinked trace none result s h = h
settle-IsLinked trace (some n) result s h =
    take_result-IsLinked trace result.block (given result.error) s h

-- Everything that happens to a subscription object.
pub data Happening : Type 0 where
  logs : LogEvent → Happening
  settles fills : WorkerResult → Happening
  errs : JsValue → Happening
  subscribes : (finalized start_block : ℤ) → Happening
  finds_latest : (latest start_block : ℤ) (now workers : ℕ) → Happening
  finishes_job : (id : ℕ) → Happening
  leaves : Outcome (Unit {0}) → Happening

abbrev pub happen : (trace : String) → Happening → Subscription → Subscription
happen trace (logs event) s = on_log event s
happen trace (settles result) s = on_settled trace result s
happen trace (fills result) s = on_filled trace result s
happen trace (errs e) s = on_subscription_error trace e s
happen trace (subscribes finalized start_block) s = begin_subscription finalized start_block s
happen trace (finds_latest latest start_block now workers) s =
    on_latest_block latest start_block now workers s
happen trace (finishes_job id) s = next_job id s
happen trace (leaves answer) s = (unsubscribe trace answer s).0

abbrev pub happen_all : (trace : String) → List Happening → Subscription → Subscription
happen_all trace [] s = s
happen_all trace (e ∷ es) s = happen_all trace es (happen trace e s)

on_latest_block-Keeps :
    (latest start_block : ℤ) (now workers : ℕ) (s : Subscription)
    → Keeps s (on_latest_block latest start_block now workers s)
unfolding on_latest_block subscribe_to_logs
on_latest_block-Keeps latest start_block now workers s = elim (Bool-cases (is_reached latest s)) [
  | inl reached ↦ elim (Bool-cases (needs_back_fill start_block s)) [
    | inl behind ↦ rw (reached, behind) (back_fill_blocks-Keeps now workers s)
    | inr near ↦ rw (reached, near) (record { kept = refl; same_last = refl })
  ]
  | inr early ↦ rw early (record { kept = refl; same_last = refl })
]

happen-IsLinked :
    (trace : String) (e : Happening) (s : Subscription) → IsLinked s → IsLinked (happen trace e s)
unfolding on_log on_settled on_filled on_subscription_error begin_subscription subscribe_to_logs
happen-IsLinked trace (logs event) s h =
    Keeps-IsLinked (hashed_log-Keeps event.block_hash event.block_number s) h
happen-IsLinked trace (settles result) s h = settle-IsLinked trace s.awaited result s h
happen-IsLinked trace (fills result) s h =
    Keeps-IsLinked (settle_filled-Keeps trace s.back_fill_awaited result s) h
happen-IsLinked trace (errs e) s h = Keeps-IsLinked (record { kept = refl; same_last = refl }) h
happen-IsLinked trace (subscribes finalized start_block) s h =
    Keeps-IsLinked (record { kept = refl; same_last = refl }) h
happen-IsLinked trace (finds_latest latest start_block now workers) s h =
    Keeps-IsLinked (on_latest_block-Keeps latest start_block now workers s) h
happen-IsLinked trace (finishes_job id) s h = Keeps-IsLinked (next_job-Keeps id s) h
happen-IsLinked trace (leaves answer) s h = Keeps-IsLinked (unsubscribe-Keeps trace answer s) h

-- From a state where this holds, such as a new one, and whatever happens to the subscription, logs, settled promises, errors, jobs, backfills, and any number of
-- calls of `subscribe` and `unsubscribe`: of the blocks that `processQueue` hands to the observer, each
-- one that is higher than the one before it is its child, and `lastEmittedBlock` is the newest of them.
pub happen_all-IsLinked :
    (trace : String) (es : List Happening) (s : Subscription)
    → IsLinked s
    → IsLinked (happen_all trace es s)
happen_all-IsLinked trace [] s h = h
happen_all-IsLinked trace (e ∷ es) s h =
    happen_all-IsLinked trace es (happen trace e s) (happen-IsLinked trace e s h)
