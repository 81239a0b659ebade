-- ===== src/Subscription/Polling.antt =====
-- internal/block_subscription/block_polling.ts: one run of `startBlockPolling`, between whose awaits
-- `subscribe` and `unsubscribe` may set `pollingId`. The block getter's answers are arguments.
use chain_indexer_framework.Prelude.{
  ℕ, Bool, true, ◌&&◌, String, Option, some, List, [], ◌∷◌, if◌then◌else◌,
}
use chain_indexer_framework.Prelude.Int.{ℤ, pos, ◌+ℤ◌, ◌-ℤ◌, leb_ℤ}
use chain_indexer_framework.Errors.Value.{JsObject, JsValue}
use chain_indexer_framework.Errors.Convert.{block_producer_create_unknown}
use chain_indexer_framework.Store.{Outcome, done, failed}
use chain_indexer_framework.Subscription.State.{Block}
use chain_indexer_framework.Subscription.BackFill.{is_active}

-- What the run awaits: the latest number, the timer, or a block of the `for` loop.
pub data Awaited : Type 0 where
  nothing latest_number : Awaited
  timer : (latest : ℤ) → Awaited
  block_of : (number latest : ℤ) → Awaited

-- A call of the observer; a block stands with the number it was asked for.
pub data Call : Type 0 where
  hands : (number : ℤ) → Block → Call
  reports : JsObject → Call

pub record Poller : Type 0 where
  pub polling_id : Option ℕ
  -- The locals of the run.
  pub id : ℕ
  pub last_block_number : ℤ
  pub awaited : Awaited
  pub log : List Call

abbrev pub is_current : Poller → Bool
is_current p = is_active p.polling_id p.id

-- The test of the `while` loop.
unfoldable pub while_head : Poller → Poller
while_head p =
    if is_current p then record p { awaited = latest_number } else record p { awaited = nothing }

-- The test of the `for` loop at a number.
unfoldable pub for_head : (number latest : ℤ) → Poller → Poller
unfolding while_head
for_head number latest p =
    if leb_ℤ number latest && is_current p
    then record p { awaited = block_of number latest }
    else while_head p

-- `subscribe`, at the time `now`.
unfoldable pub start_polling : (now : ℕ) (start_block : ℤ) → Poller
unfolding while_head
start_polling now start_block = while_head (record {
  polling_id = some now;
  id = now;
  last_block_number = start_block -ℤ pos 1;
  awaited = nothing;
  log = [];
})

abbrev pub fail : (trace : String) → JsValue → Poller → Poller
fail trace e p = record p {
  awaited = nothing;
  log = reports (block_producer_create_unknown trace e true) ∷ p.log;
}

unfoldable pub on_latest : (trace : String) → Outcome ℤ → Poller → Poller
on_latest trace (failed e) p = fail trace e p
on_latest trace (done latest) p =
    if leb_ℤ latest p.last_block_number
    then record p { awaited = timer latest }
    else for_head (p.last_block_number +ℤ pos 1) latest p

unfoldable pub hand : (number latest : ℤ) → Block → Poller → Poller
hand number latest block p =
    if is_current p
    then for_head (number +ℤ pos 1) latest
        (record p { last_block_number = number; log = hands number block ∷ p.log })
    else while_head p

abbrev pub on_polled : (trace : String) (number latest : ℤ) → Outcome Block → Poller → Poller
on_polled trace number latest (failed e) p = fail trace e p
on_polled trace number latest (done block) p = hand number latest block p

-- What happens to the run, and to the field that it compares.
pub data Event : Type 0 where
  answers : Outcome ℤ → Event
  wakes : Event
  polls : Outcome Block → Event
  sets : Option ℕ → Event

abbrev pub resume : (trace : String) → Event → Awaited → Poller → Poller
resume trace (answers o) latest_number p = on_latest trace o p
resume trace wakes (timer latest) p = for_head (p.last_block_number +ℤ pos 1) latest p
resume trace (polls o) (block_of number latest) p = on_polled trace number latest o p
resume trace (sets i) a p = record p { polling_id = i }
resume trace e a p = p

abbrev pub run : (trace : String) → List Event → Poller → Poller
run trace [] p = p
run trace (e ∷ es) p = run trace es (resume trace e p.awaited p)
