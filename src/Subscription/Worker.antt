-- ===== src/Subscription/Worker.antt =====
-- `getBlockFromWorker` of internal/block_subscription/block_subscription.ts: the promise of one call,
-- with its two listeners on the worker.
use chain_indexer_framework.Prelude.{
  ℕ, ◌==◌, Bool, true, false, ◌&&◌, Option, none, some, if◌then◌else◌,
}
use chain_indexer_framework.Errors.Value.{JsValue}
use chain_indexer_framework.Subscription.State.{Block, WorkerResult, given}

pub record WorkerCall : Type 0 where
  pub call_back_id : ℕ
  pub listens : Bool
  pub settled : Option WorkerResult

-- `Date.now() + blockNumber` is computed before.
unfoldable pub get_block_from_worker : (call_back_id : ℕ) → WorkerCall
get_block_from_worker call_back_id = record {
  call_back_id = call_back_id;
  listens = true;
  settled = none;
}

-- A message of the worker, which carries the identifier of the call that it answers: with an error that
-- `if (value.error)` finds, or else with `null` for the error.
unfoldable pub on_message : (call_back_id : ℕ) → WorkerResult → WorkerCall → WorkerCall
on_message call_back_id result c =
    if c.listens && (call_back_id == c.call_back_id)
    then record c { listens = false; settled = some (record result { error = given result.error }) }
    else c

-- An error of the worker; `{}` stands for the block.
unfoldable pub on_worker_error : (empty : Block) → JsValue → WorkerCall → WorkerCall
on_worker_error empty e c =
    if c.listens
    then record c { listens = false; settled = some (record { block = empty; error = some e }) }
    else c
