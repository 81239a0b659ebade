-- ===== src/Subscription/BackFill.antt =====
-- `backFillBlocks` and `addWorkerJobToQueue` of internal/block_subscription/block_subscription.ts, one
-- run at a time: an older run that still awaits a promise when another one begins is left out, though in
-- the code it may still report an error. The workers' threads are outside: a job and a promise settle as
-- steps.
use chain_indexer_framework.Prelude.{
  ℕ, zero, suc, Bool, true, false, not, ◌&&◌, ◌||◌, String, Option, none, some, if◌then◌else◌, ◌==◌,
}
use chain_indexer_framework.Prelude.Int.{ℤ, pos, ◌+ℤ◌, ltb_ℤ, leb_ℤ}
use chain_indexer_framework.Errors.Value.{JsValue}
use chain_indexer_framework.Errors.Convert.{block_producer_create_unknown}
use chain_indexer_framework.Queue.{get_length, is_empty, shift}
use chain_indexer_framework.Subscription.State.{
  Block, WorkerResult, given, backfills, reports, resubscribes, Subscription, logged,
}
use chain_indexer_framework.Subscription.Live.{
  is_reached, needs_back_fill, request, subscribe_to_logs,
}

-- The `for` loop: the worker `i` gets block `nextBlock + i`.
unfoldable pub add_jobs : (workers i : ℕ) → Subscription → Subscription
add_jobs zero i s = s
add_jobs (suc k) i s = add_jobs k (suc i) (request (s.next_block +ℤ pos i) s)

-- The test of the `while` loop, and its round up to the `await`; after it the subscription starts
-- again, at the next block.
unfoldable pub back_fill_loop : Subscription → Subscription
back_fill_loop s =
    if leb_ℤ s.next_block s.last_finalized_block && not (is_empty s.queue)
    then record s { back_fill_awaited = (shift s.queue).0; queue = (shift s.queue).1 }
    else logged (resubscribes s.next_block)
        (record s { back_fill_awaited = none; active_back_filling_id = none })

unfoldable pub back_fill_blocks : (now workers : ℕ) → Subscription → Subscription
unfolding add_jobs back_fill_loop
back_fill_blocks now workers s =
    back_fill_loop
      (add_jobs workers 0 (record s { active_back_filling_id = some now; back_filling_id = now }))

abbrev pub is_active : Option ℕ → ℕ → Bool
is_active none id = false
is_active (some active) id = active == id

-- The `catch`: with an observer, which `subscribe` has set.
unfoldable pub fail_back_fill : (trace : String) → JsValue → Subscription → Subscription
fail_back_fill trace error s =
    logged (reports (block_producer_create_unknown trace error true))
      (record s { active_back_filling_id = none; fatal_error = true; back_fill_awaited = none })

unfoldable pub hand_on : Block → Subscription → Subscription
unfolding back_fill_loop
hand_on block s =
    if not (is_active s.active_back_filling_id s.back_filling_id) || s.fatal_error
    then record s { back_fill_awaited = none }
    else back_fill_loop (logged (backfills block) (record s { next_block = s.next_block +ℤ pos 1 }))

abbrev pub take_filled : (trace : String) → Block → Option JsValue → Subscription → Subscription
take_filled trace block (some error) s = fail_back_fill trace error s
take_filled trace block none s = hand_on block s

abbrev pub settle_filled : (trace : String) → Option ℤ → WorkerResult → Subscription → Subscription
settle_filled trace none result s = s
settle_filled trace (some n) result s = take_filled trace result.block (given result.error) s

-- The promise that `backFillBlocks` awaits settles.
unfoldable pub on_filled : (trace : String) → WorkerResult → Subscription → Subscription
on_filled trace result s = settle_filled trace s.back_fill_awaited result s

-- A job has settled, and no fewer than 2500 promises kept it waiting: its worker gets the next block.
unfoldable pub next_job : (id : ℕ) → Subscription → Subscription
next_job id s =
    if is_active s.active_back_filling_id id
      && ltb_ℤ (s.next_block +ℤ pos (get_length s.queue)) s.last_finalized_block
    then request (s.next_block +ℤ pos (get_length s.queue) +ℤ pos 1) s
    else s

-- The rest of `subscribe` when a poll for the latest block answers: wait on, fill in the blocks up to
-- the finalized one, or subscribe to the logs.
unfoldable pub on_latest_block :
    (latest start_block : ℤ) → (now workers : ℕ) → Subscription → Subscription
unfolding back_fill_blocks
on_latest_block latest start_block now workers s =
    if is_reached latest s
    then (if needs_back_fill start_block s
        then back_fill_blocks now workers s
        else subscribe_to_logs s)
    else s
