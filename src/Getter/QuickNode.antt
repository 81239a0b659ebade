-- ===== src/Getter/QuickNode.antt =====
-- internal/block_getters/quicknode_block_getter.ts: `getBlockWithTransactionReceipts` of
-- `QuickNodeBlockGetter`: one request for the block and its receipts, from the second try on at the other
-- node, where there is one. The tries left are `maxRetries - retryCount`.
use chain_indexer_framework.Prelude.{ℕ, Bool, true, false, String, Option, none, some, List, ltb}
use chain_indexer_framework.Prelude.Text.{◌++ˢ◌}
use chain_indexer_framework.Errors.Value.{JsValue, object, new_error}
use chain_indexer_framework.Store.{Outcome, done, failed}
use chain_indexer_framework.Formatter.Types.{
  Amount, RawReceipt, RawTransaction, Libraries, OwnTransaction, OwnBlock,
}
use chain_indexer_framework.Formatter.Format.{
  format_raw_receipt, format_raw_transaction_object, format_raw_block,
}
use chain_indexer_framework.Getter.Node.{
  Node, QuickNodeResponse, retrying, and_then, collect, find_receipt,
}
use chain_indexer_framework.Getter.Base.{print_amount}
use chain_indexer_framework.Getter.Erigon.{always_retry, or_ask}

module _ (lib : Libraries) (node : Node) (stringify : JsValue → String) (max_retries : ℕ)
    (trace : String)
    (alternate : Option
      (Amount → node.State → Option (Outcome (Option QuickNodeResponse)) × node.State)) where
  -- The node that a try goes to.
  abbrev pub send_to :
      Bool
      → Option (Amount → node.State → Option (Outcome (Option QuickNodeResponse)) × node.State)
      → Amount
      → node.State
      → Option (Outcome (Option QuickNodeResponse)) × node.State
  send_to true (some other) = other
  send_to true none = node.send_block_with_receipts
  send_to false other = node.send_block_with_receipts

  abbrev pub answered :
      Amount → Option (Outcome (Option QuickNodeResponse)) → Outcome QuickNodeResponse
  answered block_number none =
      failed
        (object (new_error trace ("Request timed out for block: " ++ˢ print_amount block_number)))
  answered block_number (some (failed e)) = failed e
  answered block_number (some (done none)) = failed (
      object (new_error trace ("null response received for block: " ++ˢ print_amount block_number)))
  answered block_number (some (done (some response))) = done response

  abbrev pub add_receipt :
      List RawReceipt → RawTransaction → node.State → Outcome (OwnTransaction lib) × node.State
  add_receipt receipts t s =
      and_then
        (or_ask lib node stringify max_retries trace t.hash
          (format_raw_receipt lib (find_receipt t.hash receipts)) s)
        (λ receipt s'. (done (format_raw_transaction_object lib t receipt), s'))

  abbrev pub fill_block : QuickNodeResponse → node.State → Outcome (OwnBlock lib) × node.State
  fill_block response s =
      and_then (collect (add_receipt response.receipts) response.block.transactions s)
        (λ transactions s'. (done (format_raw_block lib response.block transactions), s'))

  -- `retryCount > 0` is fewer tries left than at first.
  abbrev pub ask_block : Amount → (left : ℕ) → node.State → Outcome (OwnBlock lib) × node.State
  ask_block block_number left s =
      let (answer, s') = send_to (ltb left max_retries) alternate block_number s in
      and_then (answered block_number answer, s') fill_block

  unfoldable pub get_quicknode_block :
      Amount → (left : ℕ) → node.State → Outcome (OwnBlock lib) × node.State
  unfolding retrying
  get_quicknode_block block_number left s = retrying (ask_block block_number) always_retry left s
