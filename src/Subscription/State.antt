-- ===== src/Subscription/State.antt =====
-- The fields of `AbstractBlockSubscription` in
-- internal/block_subscription/abstract_block_subscription.ts and of `BlockSubscription` beside it,
-- and what they do to the outside, newest first in `log`.
use chain_indexer_framework.Prelude.{
  ℕ, Bool, false, String, Option, none, some, List, [], ◌∷◌, if◌then◌else◌,
}
use chain_indexer_framework.Prelude.Int.{ℤ, pos}
use chain_indexer_framework.Errors.Value.{JsObject, JsValue, is_truthy}
use chain_indexer_framework.Queue.{Queue, new_queue}

-- The fields of `IBlock` that the subscription reads.
pub record Block : Type 0 where
  pub number : ℤ
  pub hash : String
  pub parent_hash : String

-- The `blockNumber` of a log, as `typeof` and `Number.isFinite` see it.
pub data LogNumber : Type 0 where
  finite : ℤ → LogNumber
  not_finite not_a_number : LogNumber

-- A log as the node sends it; a missing hash is `none`.
pub record LogEvent : Type 0 where
  pub block_hash : Option String
  pub block_number : LogNumber

-- `IBlockGetterWorkerPromise`, settled.
pub record WorkerResult : Type 0 where
  pub block : Block
  pub error : Option JsValue

-- The error that `promiseResult?.error`, or `value.error`, finds.
unfoldable pub given : Option JsValue → Option JsValue
unfolding is_truthy
given none = none
given (some error) = if is_truthy error then some error else none

pub data Action : Type 0 where
  requests : ℤ → Action
  emits backfills : Block → Action
  reports : JsObject → Action
  subscribes_from resubscribes : ℤ → Action
  unsubscribes : Action

pub record Subscription : Type 0 where
  pub last_block_hash : String
  pub processing_queue : Bool
  pub fatal_error : Bool
  pub last_finalized_block : ℤ
  pub next_block : ℤ
  pub active_back_filling_id : Option ℕ
  pub last_received_block_number : ℤ
  pub last_emitted_block : Option Block
  pub has_observer : Bool
  pub has_subscription : Bool
  -- The promised blocks, by the numbers that were requested.
  pub queue : Queue ℤ
  -- The promise that the running `processQueue`, or `backFillBlocks`, awaits.
  pub awaited : Option ℤ
  pub back_fill_awaited : Option ℤ
  -- The local of the running `backFillBlocks`.
  pub back_filling_id : ℕ
  pub log : List Action

unfoldable pub new_subscription : Subscription
new_subscription = record {
  last_block_hash = "";
  processing_queue = false;
  fatal_error = false;
  last_finalized_block = pos 0;
  next_block = pos 0;
  active_back_filling_id = none;
  last_received_block_number = pos 0;
  last_emitted_block = none;
  has_observer = false;
  has_subscription = false;
  queue = new_queue;
  awaited = none;
  back_fill_awaited = none;
  back_filling_id = 0;
  log = [];
}

abbrev pub logged : Action → Subscription → Subscription
logged a s = record s { log = a ∷ s.log }
