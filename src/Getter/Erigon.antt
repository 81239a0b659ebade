-- ===== src/Getter/Erigon.antt =====
-- internal/block_getters/erigon_block_getter.ts: `getBlockWithTransactionReceipts` of
-- `ErigonBlockGetter`, which asks for all receipts of a block at once. The tries left are
-- `maxRetries - retryCount`; `trace` is the stack that the engine records.
use chain_indexer_framework.Prelude.{ℕ, ◌+◌, String, Option, none, some, List}
use chain_indexer_framework.Prelude.Text.{◌++ˢ◌}
use chain_indexer_framework.Errors.Value.{JsObject, value, JsValue, object, new_error}
use chain_indexer_framework.Store.{Outcome, done, failed}
use chain_indexer_framework.Formatter.Types.{
  Amount, RawReceipt, Web3Block, Web3Transaction, Libraries, OwnReceipt, OwnTransaction, OwnBlock,
}
use chain_indexer_framework.Formatter.Format.{format_raw_receipt, format_transaction_object}
use chain_indexer_framework.Getter.Node.{
  Node, Handling, may_retry, retrying, and_then, collect, find_receipt,
}
use chain_indexer_framework.Getter.Base.{print_amount, get_transaction_receipt, with_transactions}

abbrev pub always_retry : JsValue → Handling
always_retry e = may_retry

-- `receipts?.find(...)`
abbrev pub find_optional : String → Option (List RawReceipt) → Option RawReceipt
find_optional hash none = none
find_optional hash (some receipts) = find_receipt hash receipts

module _ (lib : Libraries) (node : Node) (stringify : JsValue → String) (max_retries : ℕ)
    (trace : String) where
  abbrev pub late : (message : String) → JsValue
  late message = object (new_error trace message)

  -- The `TypeError` of `block.transactions`.
  abbrev pub no_block : JsObject
  no_block = record (new_error trace "Cannot read properties of null (reading 'transactions')") {
    name = value "TypeError";
  }

  -- The second request of `sendTransactionReceiptsCall` resolves with whatever result it has.
  abbrev pub resend :
      Amount
      → Outcome (Option (List RawReceipt))
      → node.State
      → Option (Outcome (Option (List RawReceipt))) × node.State
  resend block_number (failed e) s = (some (failed e), s)
  resend block_number (done (some receipts)) s = (some (done (some receipts)), s)
  resend block_number (done none) s = node.send_block_receipts block_number s

  abbrev pub resend_in_time :
      Amount
      → Option (Outcome (Option (List RawReceipt))) × node.State
      → Option (Outcome (Option (List RawReceipt))) × node.State
  resend_in_time block_number (none, s) = (none, s)
  resend_in_time block_number (some o, s) = resend block_number o s

  unfoldable pub send_transaction_receipts_call :
      Amount → node.State → Option (Outcome (Option (List RawReceipt))) × node.State
  send_transaction_receipts_call block_number s =
      resend_in_time block_number (node.send_block_receipts block_number s)

  -- The race with the timer of thirty seconds, which is the shorter one.
  abbrev pub in_time :
      {A : Type 0} → (message : String) → Option (Outcome A) × node.State → Outcome A × node.State
  in_time message (none, s) = (failed (late message), s)
  in_time message (some o, s) = (o, s)

  -- `formatRawReceipt(...) ?? await this.getTransactionReceipt(hash)`
  abbrev pub or_ask :
      String → Option (OwnReceipt lib) → node.State → Outcome (OwnReceipt lib) × node.State
  or_ask hash (some receipt) s = (done receipt, s)
  or_ask hash none s =
      get_transaction_receipt lib node stringify max_retries hash (max_retries + 1) s

  abbrev pub add_receipt :
      Option (List RawReceipt)
      → Web3Transaction
      → node.State
      → Outcome (OwnTransaction lib) × node.State
  add_receipt receipts t s =
      and_then (or_ask t.hash (format_raw_receipt lib (find_optional t.hash receipts)) s)
        (λ receipt s'. (done (format_transaction_object lib t receipt), s'))

  abbrev pub fill_block :
      Option Web3Block → Option (List RawReceipt) → node.State → Outcome (OwnBlock lib) × node.State
  fill_block none receipts s = (failed (object no_block), s)
  fill_block (some block) receipts s =
      and_then (collect (add_receipt receipts) block.transactions s)
        (with_transactions lib node stringify max_retries block)

  abbrev pub ask_receipts :
      Amount → Option Web3Block → node.State → Outcome (OwnBlock lib) × node.State
  ask_receipts block_number block s =
      and_then
        (in_time
          ("Timeout while fetching block receipts for "
            ++ˢ print_amount block_number
            ++ˢ " in getBlockWithTransactionReceipts")
          (send_transaction_receipts_call block_number s))
        (fill_block block)

  abbrev pub ask_block : Amount → ℕ → node.State → Outcome (OwnBlock lib) × node.State
  ask_block block_number left s =
      and_then
        (in_time
          ("Timeout while fetching block "
            ++ˢ print_amount block_number
            ++ˢ " in getBlockWithTransactionReceipts")
          (node.get_block_in_time block_number s))
        (ask_receipts block_number)

  unfoldable pub get_erigon_block :
      Amount → (left : ℕ) → node.State → Outcome (OwnBlock lib) × node.State
  unfolding retrying
  get_erigon_block block_number left s = retrying (ask_block block_number) always_retry left s
