-- ===== src/Subscription/Erigon.antt =====
-- internal/block_subscription/erigon_block_polling.ts: the run of `startBlockPolling` that was started
-- last, and `processQueue`. A step ends where the code awaits. `lower` is `toLowerCase`.
use chain_indexer_framework.Prelude.{
  ℕ, zero, suc, ◌*◌, Bool, true, false, not, ◌&&◌, String, Option, none, some, List, [], ◌∷◌,
  if◌then◌else◌, leb,
}
use chain_indexer_framework.Prelude.Int.{ℤ, pos, ◌+ℤ◌, ◌-ℤ◌, pos_part, leb_ℤ}
use chain_indexer_framework.Prelude.Text.{str_eq}
use chain_indexer_framework.Errors.Codes
use chain_indexer_framework.Errors.Value.{JsObject, JsValue, object}
use chain_indexer_framework.Errors.Classes.{new_block_producer_error}
use chain_indexer_framework.Errors.Convert.{block_producer_create_unknown}
use chain_indexer_framework.Queue.{Queue, new_queue, enqueue, get_length, is_empty, shift, clear}
use chain_indexer_framework.Store.{Outcome, done, failed}
use chain_indexer_framework.Subscription.State.{Block, WorkerResult, given}
use chain_indexer_framework.Subscription.Live.{to_report}
use chain_indexer_framework.Subscription.BackFill.{is_active}

-- What the polling run awaits: the latest number, the timer, or room for a block in the queue.
pub data Polls : Type 0 where
  nothing latest_number : Polls
  timer : (latest : ℤ) → Polls
  room_for : (number latest : ℤ) → Polls

pub data Action : Type 0 where
  requests : ℤ → Action
  emits : Block → Action
  reports_reorg reports : JsObject → Action

pub record ErigonPoller : Type 0 where
  pub workers : ℕ
  pub polling_id : Option ℕ
  pub processing_queue : Bool
  pub fatal_error : Bool
  pub has_observer : Bool
  pub last_saved_block_hash : Option String
  pub queue : Queue ℤ
  -- The promise that the running `processQueue` awaits.
  pub awaited : Option ℤ
  -- The locals of the polling run.
  pub id : ℕ
  pub last_block_number : ℤ
  pub polls : Polls
  pub log : List Action

unfoldable pub new_poller : (workers : ℕ) → ErigonPoller
new_poller workers = record {
  workers = workers;
  polling_id = none;
  processing_queue = false;
  fatal_error = false;
  has_observer = false;
  last_saved_block_hash = none;
  queue = new_queue;
  awaited = none;
  id = 0;
  last_block_number = pos 0;
  polls = nothing;
  log = [];
}

abbrev pub logged : Action → ErigonPoller → ErigonPoller
logged a p = record p { log = a ∷ p.log }

unfoldable pub reorg_error : JsObject
unfolding new_block_producer_error
reorg_error = new_block_producer_error (record {
  name = some "Reorg Encountered";
  code = some Codes.reorg_encountered;
  is_fatal = some true;
  message = some "reorg encountered";
  origin = none;
  stack = none;
})

unfoldable pub queue_loop : ErigonPoller → ErigonPoller
queue_loop p =
    if not (is_empty p.queue) && (not p.fatal_error && p.has_observer)
    then record p { awaited = (shift p.queue).0; queue = (shift p.queue).1 }
    else record p { awaited = none; processing_queue = false }

unfoldable pub process_queue : ErigonPoller → ErigonPoller
process_queue p = queue_loop (record p { processing_queue = true })

-- The `catch` of `processQueue`.
abbrev pub end_loop : ErigonPoller → ErigonPoller
end_loop p = record p { fatal_error = true; awaited = none; processing_queue = false }

-- `this.lastSavedBlockHash && this.lastSavedBlockHash !== parentHash`
abbrev pub differs : Option String → String → Bool
differs none parent = false
differs (some h) parent = not (str_eq h "") && not (str_eq h parent)

module _ (trace : String) (lower : String → String) where
  -- The branch that throws, with `unsubscribe` and `clear`.
  unfoldable pub break_off : ErigonPoller → ErigonPoller
  break_off p = logged (reports_reorg (to_report trace (object reorg_error))) (
      end_loop
        (record p { last_saved_block_hash = none; polling_id = none; queue = (clear p.queue).1 }))

  unfoldable pub on_block : Block → ErigonPoller → ErigonPoller
  on_block block p =
      if differs p.last_saved_block_hash (lower block.parent_hash)
      then break_off p
      else queue_loop
          (logged (emits block) (record p { last_saved_block_hash = some (lower block.hash) }))

  abbrev pub take_result : Block → Option JsValue → ErigonPoller → ErigonPoller
  take_result block (some e) p = logged (reports (to_report trace e)) (end_loop p)
  take_result block none p = on_block block p

  abbrev pub settle : Option ℤ → WorkerResult → ErigonPoller → ErigonPoller
  settle none result p = p
  settle (some n) result p = take_result result.block (given result.error) p

  -- The promise that `processQueue` awaits settles.
  unfoldable pub on_settled : WorkerResult → ErigonPoller → ErigonPoller
  on_settled result p = settle p.awaited result p

abbrev pub is_current : ErigonPoller → Bool
is_current p = is_active p.polling_id p.id

-- The test of the `while` loop of `startBlockPolling`.
unfoldable pub while_head : ErigonPoller → ErigonPoller
while_head p =
    if is_current p then record p { polls = latest_number } else record p { polls = nothing }

unfoldable pub is_full : ErigonPoller → Bool
is_full p = leb (p.workers * 100) (get_length p.queue)

abbrev pub process_unless_busy : ErigonPoller → ErigonPoller
process_unless_busy p = if p.processing_queue then p else process_queue p

-- The body of the `for` loop, from `enqueue` on.
unfoldable pub request_block : ℤ → ErigonPoller → ErigonPoller
request_block n p =
    let asked =
      process_unless_busy (logged (requests n) (record p { queue = enqueue n p.queue })) in
    if is_current asked then record asked { last_block_number = n } else asked

-- The rounds of the `for` loop that are left, at a number: none is left behind the latest number.
unfoldable pub for_rounds : (rounds : ℕ) → (number latest : ℤ) → ErigonPoller → ErigonPoller
unfolding while_head
for_rounds zero number latest p = while_head p
for_rounds (suc k) number latest p =
    let rest = for_rounds k (number +ℤ pos 1) latest (request_block number p) in
    if is_current p
    then (if is_full p then record p { polls = room_for number latest } else rest)
    else while_head p

-- How many rounds there are from a number on.
abbrev pub rounds_to : (number latest : ℤ) → ℕ
rounds_to number latest = pos_part (latest +ℤ pos 1 -ℤ number)

unfoldable pub for_loop : (number latest : ℤ) → ErigonPoller → ErigonPoller
unfolding for_rounds
for_loop number latest p = for_rounds (rounds_to number latest) number latest p

unfoldable pub on_latest : (trace : String) → Outcome ℤ → ErigonPoller → ErigonPoller
on_latest trace (failed e) p =
    logged (reports (block_producer_create_unknown trace e true)) (record p { polls = nothing })
on_latest trace (done latest) p =
    if leb_ℤ latest p.last_block_number
    then record p { polls = timer latest }
    else for_loop (p.last_block_number +ℤ pos 1) latest p

-- The wait for room ends: the queue is looked at again, then `pollingId`.
abbrev pub after_wait : (number latest : ℤ) → ErigonPoller → ErigonPoller
after_wait number latest p =
    if is_full p then p else (if is_current p then for_loop number latest p else while_head p)

abbrev pub wake : Polls → ErigonPoller → ErigonPoller
wake nothing p = p
wake latest_number p = p
wake (timer latest) p = for_loop (p.last_block_number +ℤ pos 1) latest p
wake (room_for number latest) p = after_wait number latest p

abbrev pub answer : (trace : String) → Outcome ℤ → Polls → ErigonPoller → ErigonPoller
answer trace o latest_number p = on_latest trace o p
answer trace o other p = p

unfoldable pub subscribe : (now : ℕ) (start_block : ℤ) → ErigonPoller → ErigonPoller
unfolding while_head
subscribe now start_block p = while_head (record p {
  polling_id = some now;
  has_observer = true;
  fatal_error = false;
  id = now;
  last_block_number = start_block -ℤ pos 1;
})

unfoldable pub unsubscribe : ErigonPoller → ErigonPoller
unsubscribe p = record p { polling_id = none }
