-- ===== src/Getter/Worker.antt =====
-- internal/block_getters/*_worker.ts: the handler of each worker's messages, and its answer as
-- `getBlockFromWorker` of internal/block_subscription/block_subscription.ts receives it.
use chain_indexer_framework.Prelude.{ℕ, ◌+◌, String, Option, none, some, List, [], ◌∷◌}
use chain_indexer_framework.Prelude.Int.{pos}
use chain_indexer_framework.Errors.Value.{JsValue}
use chain_indexer_framework.Store.{Outcome, done, failed}
use chain_indexer_framework.Formatter.Types.{number, Libraries, OwnBlock}
use chain_indexer_framework.Getter.Node.{Node, QuickNodeResponse}
use chain_indexer_framework.Formatter.Types.{Amount}
use chain_indexer_framework.Getter.Base.{get_block_with_transaction_receipts}
use chain_indexer_framework.Getter.Erigon.{get_erigon_block}
use chain_indexer_framework.Getter.QuickNode.{get_quicknode_block}
use chain_indexer_framework.Subscription.State.{Block, WorkerResult}
use chain_indexer_framework.Subscription.Worker.{WorkerCall, on_message}

module _ (lib : Libraries) where
  -- `IBlockWorkerMessage`; the answer with an error has no block.
  pub record WorkerMessage : Type 0 where
    pub call_back_id : ℕ
    pub error : Option JsValue
    pub block : Option (OwnBlock lib)

  -- `clone` is what the structured clone of `postMessage` makes of a value: of an `Error`, an `Error`
  -- without the properties that its class adds.
  abbrev pub reply_to :
      (clone : JsValue → JsValue) (call_back_id : ℕ) → Outcome (OwnBlock lib) → WorkerMessage
  reply_to clone call_back_id (done block) = record {
    call_back_id = call_back_id;
    error = none;
    block = some block;
  }
  reply_to clone call_back_id (failed e) = record {
    call_back_id = call_back_id;
    error = some (clone e);
    block = none;
  }

  -- The fields of a block that a subscription reads, and what stands for a block that is missing.
  abbrev pub as_block : (absent : Block) → Option (OwnBlock lib) → Block
  as_block absent none = absent
  as_block absent (some own) = record {
    number = pos (lib.to_number own.number);
    hash = own.parts.hash;
    parent_hash = own.parts.parent_hash;
  }

  -- A message as `onMessage` resolves with it.
  abbrev pub result_of : (absent : Block) → WorkerMessage → WorkerResult
  result_of absent message = record { block = as_block absent message.block; error = message.error }

  abbrev pub receive : (absent : Block) → WorkerMessage → WorkerCall → WorkerCall
  receive absent message c = on_message message.call_back_id (result_of absent message) c

  unfoldable pub receive_all : (absent : Block) → List WorkerMessage → WorkerCall → WorkerCall
  unfolding on_message
  receive_all absent [] c = c
  receive_all absent (m ∷ ms) c = receive_all absent ms (receive absent m c)

  module _ (node : Node) (stringify : JsValue → String) (clone : JsValue → JsValue)
      (max_retries : ℕ) (trace : String) where
    unfoldable pub serve : (block_number call_back_id : ℕ) → node.State → WorkerMessage × node.State
    unfolding get_block_with_transaction_receipts
    serve block_number call_back_id s =
        let (o, s') =
          get_block_with_transaction_receipts lib node stringify max_retries (number block_number)
            (max_retries + 1) s in
        (reply_to clone call_back_id o, s')

    unfoldable pub serve_erigon :
        (block_number call_back_id : ℕ) → node.State → WorkerMessage × node.State
    unfolding get_erigon_block
    serve_erigon block_number call_back_id s =
        let (o, s') =
          get_erigon_block lib node stringify max_retries trace (number block_number) max_retries
            s in
        (reply_to clone call_back_id o, s')

    -- The same over HTTP.
    unfoldable pub serve_erigon_http :
        (block_number call_back_id : ℕ) → node.State → WorkerMessage × node.State
    unfolding get_erigon_block
    serve_erigon_http block_number call_back_id s =
        let (o, s') =
          get_erigon_block lib node stringify max_retries trace (number block_number) max_retries
            s in
        (reply_to clone call_back_id o, s')

    unfoldable pub serve_quicknode :
        Option (Amount → node.State → Option (Outcome (Option QuickNodeResponse)) × node.State)
        → (block_number call_back_id : ℕ) → node.State
        → WorkerMessage × node.State
    unfolding get_quicknode_block
    serve_quicknode alternate block_number call_back_id s =
        let (o, s') =
          get_quicknode_block lib node stringify max_retries trace alternate (number block_number)
            max_retries s in
        (reply_to clone call_back_id o, s')
