-- ===== src/Subscription/Live.antt =====
-- The steps of internal/block_subscription/abstract_block_subscription.ts: `subscribe`, its listeners,
-- `processQueue`, `unsubscribe` and the check for silence. A step ends where the code awaits. The
-- observer's `next` is asynchronous, so that calling it does not throw.
use chain_indexer_framework.Prelude.{
  ℕ, zero, suc, Bool, true, false, not, ◌&&◌, ◌||◌, String, Option, none, some, if◌then◌else◌,
}
use chain_indexer_framework.Prelude.Int.{ℤ, pos, ◌+ℤ◌, ◌-ℤ◌, pos_part, ltb_ℤ, leb_ℤ}
use chain_indexer_framework.Prelude.Text.{str_eq}
use chain_indexer_framework.Errors.Codes
use chain_indexer_framework.Errors.Value.{is_block_producer_class, JsObject, JsValue, object}
use chain_indexer_framework.Errors.Classes.{new_block_producer_error}
use chain_indexer_framework.Errors.Convert.{block_producer_create_unknown}
use chain_indexer_framework.Queue.{enqueue, is_empty, shift, clear}
use chain_indexer_framework.Store.{Outcome, done, failed}
use chain_indexer_framework.Subscription.State.{
  Block, LogNumber, finite, not_finite, not_a_number, LogEvent, WorkerResult, given, requests,
  emits, reports, subscribes_from, unsubscribes, Subscription, logged,
}

abbrev pub zero_block_hash : String
zero_block_hash = "0x0000000000000000000000000000000000000000000000000000000000000000"

-- `enqueue(getBlockFromWorker(n))`
abbrev pub request : ℤ → Subscription → Subscription
request n s = logged (requests n) (record s { queue = enqueue n s.queue })

unfoldable pub has_missed_blocks : ℤ → Subscription → Bool
has_missed_blocks n s = ltb_ℤ (pos 1) (n -ℤ s.last_received_block_number)

-- The rounds of the loop from `i` on.
unfoldable pub enqueue_rounds : (rounds i : ℕ) → Subscription → Subscription
enqueue_rounds zero i s = s
enqueue_rounds (suc k) i s =
    enqueue_rounds k (suc i) (request (s.last_received_block_number +ℤ pos i) s)

-- `i` goes from 1 up to, and without, the difference.
unfoldable pub enqueue_missed_blocks : ℤ → Subscription → Subscription
unfolding enqueue_rounds
enqueue_missed_blocks n s =
    enqueue_rounds (pos_part (n -ℤ s.last_received_block_number -ℤ pos 1)) 1 s

-- `lastEmittedBlock` keeps a number and a hash; here it keeps the block.
abbrev pub breaks : Option Block → Block → Bool
breaks none block = false
breaks (some last) block =
    ltb_ℤ last.number block.number && not (str_eq last.hash block.parent_hash)

unfoldable pub is_re_orged_missed : Block → Subscription → Bool
is_re_orged_missed block s = breaks s.last_emitted_block block

unfoldable pub chain_reorg : JsObject
unfolding new_block_producer_error
chain_reorg = new_block_producer_error (record {
  name = some "Chain reorg encountered";
  code = some Codes.reorg_encountered;
  is_fatal = some true;
  message = some "Chain re org not handled";
  origin = some "block_subscription";
  stack = none;
})

-- `error instanceof BlockProducerError ? error : BlockProducerError.createUnknown(error)`
abbrev pub to_report : (trace : String) → JsValue → JsObject
to_report trace (object o) =
    if is_block_producer_class o.class
    then o
    else block_producer_create_unknown trace (object o) true
to_report trace error = block_producer_create_unknown trace error true

-- The test of the `while` loop of `processQueue`, and its round up to the `await`.
unfoldable pub queue_loop : Subscription → Subscription
queue_loop s =
    if not (is_empty s.queue) && (not s.fatal_error && s.has_observer)
    then record s { awaited = (shift s.queue).0; queue = (shift s.queue).1 }
    else record s { awaited = none; processing_queue = false }

unfoldable pub process_queue : Subscription → Subscription
process_queue s = queue_loop (record s { processing_queue = true })

-- The `catch` of `processQueue`.
unfoldable pub fail_block : (trace : String) → JsValue → Subscription → Subscription
fail_block trace error s =
    logged (reports (to_report trace error))
      (record s { fatal_error = true; awaited = none; processing_queue = false })

abbrev pub emit_block : Block → Subscription → Subscription
emit_block block s =
    queue_loop (logged (emits block) (record s { last_emitted_block = some block }))

unfoldable pub on_block : (trace : String) → Block → Subscription → Subscription
on_block trace block s =
    if is_re_orged_missed block s
    then fail_block trace (object chain_reorg) (record s { next_block = block.number +ℤ pos 1 })
    else emit_block block (record s { next_block = block.number +ℤ pos 1 })

abbrev pub take_result : (trace : String) → Block → Option JsValue → Subscription → Subscription
take_result trace block (some error) s = fail_block trace error s
take_result trace block none s = on_block trace block s

abbrev pub settle : (trace : String) → Option ℤ → WorkerResult → Subscription → Subscription
settle trace none result s = s
settle trace (some n) result s = take_result trace result.block (given result.error) s

-- The promise that `processQueue` awaits settles.
unfoldable pub on_settled : (trace : String) → WorkerResult → Subscription → Subscription
on_settled trace result s = settle trace s.awaited result s

abbrev pub bad_hash : String → Bool
bad_hash h = str_eq h "" || str_eq h zero_block_hash

abbrev pub process_unless_busy : Subscription → Subscription
process_unless_busy s = if s.processing_queue then s else process_queue s

abbrev pub with_missed : ℤ → Subscription → Subscription
with_missed n s = if has_missed_blocks n s then enqueue_missed_blocks n s else s

-- A log that is neither malformed nor of the block before.
unfoldable pub accept_log : String → ℤ → Subscription → Subscription
accept_log h n s =
    process_unless_busy
      (request n (record (with_missed n s) { last_block_hash = h; last_received_block_number = n }))

abbrev pub good_log : String → ℤ → Subscription → Subscription
good_log h n s =
    if bad_hash h || ltb_ℤ n s.last_received_block_number
    then s
    else (if str_eq s.last_block_hash h then s else accept_log h n s)

abbrev pub numbered_log : String → LogNumber → Subscription → Subscription
numbered_log h (finite n) s = good_log h n s
numbered_log h not_finite s = s
numbered_log h not_a_number s = s

abbrev pub hashed_log : Option String → LogNumber → Subscription → Subscription
hashed_log none number s = s
hashed_log (some h) number s = numbered_log h number s

-- The "data" listener.
unfoldable pub on_log : LogEvent → Subscription → Subscription
on_log event s = hashed_log event.block_hash event.block_number s

-- The "error" listener.
unfoldable pub on_subscription_error : (trace : String) → JsValue → Subscription → Subscription
on_subscription_error trace error s =
    logged (reports (block_producer_create_unknown trace error true)) s

-- What `subscribe` sets, once the finalized number, or the latest less the delay, is known.
unfoldable pub begin_subscription : (finalized start_block : ℤ) → Subscription → Subscription
begin_subscription finalized start_block s = record s {
  last_finalized_block = finalized;
  queue = (clear s.queue).1;
  has_observer = true;
  fatal_error = false;
  next_block = start_block;
  last_block_hash = "";
  last_received_block_number = start_block -ℤ pos 1;
}

-- Whether the poll for the latest block ends, and whether blocks are to be filled in first.
unfoldable pub is_reached : (latest : ℤ) → Subscription → Bool
is_reached latest s = leb_ℤ s.next_block latest

unfoldable pub needs_back_fill : (start_block : ℤ) → Subscription → Bool
needs_back_fill start_block s = ltb_ℤ start_block (s.last_finalized_block -ℤ pos 20)

unfoldable pub subscribe_to_logs : Subscription → Subscription
subscribe_to_logs s = logged (subscribes_from s.next_block) (record s { has_subscription = true })

-- `unsubscribe`, with what the node answers: success, or an error.
abbrev pub answered :
    (trace : String) → Outcome (Unit {0}) → Subscription → Subscription × Outcome (Unit {0})
answered trace (done u) s = (record s { has_subscription = false }, done tt)
answered trace (failed e) s = (s, failed (object (block_producer_create_unknown trace e true)))

unfoldable pub unsubscribe :
    (trace : String) → Outcome (Unit {0}) → Subscription → Subscription × Outcome (Unit {0})
unsubscribe trace answer s =
    let cleared : Subscription = record s {
      active_back_filling_id = none;
      queue = (clear s.queue).1;
    } in
    if s.has_subscription
    then answered trace answer (logged unsubscribes cleared)
    else (cleared, done tt)

-- Whether the timer of `checkIfLive` finds the subscription silent and restarts it.
unfoldable pub is_silent : (last_block_hash : String) → Subscription → Bool
is_silent last_block_hash s = str_eq s.last_block_hash last_block_hash
