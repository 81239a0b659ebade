-- ===== src/Getter/Base.antt =====
-- internal/block_getters/block_getter.ts: `getTransactionReceipt` and `getBlockWithTransactionReceipts`
-- of `BlockGetter`. The tries left are `maxRetries + 1 - errorCount`.
use chain_indexer_framework.Prelude.{
  ℕ, ◌+◌, Bool, true, false, String, Option, none, some, List, if◌then◌else◌,
}
use chain_indexer_framework.Prelude.Text.{◌++ˢ◌, decimal}
use chain_indexer_framework.Errors.Codes
use chain_indexer_framework.Errors.Value.{
  JsObject, JsValue, object, is_block_producer_class, cause_of,
}
use chain_indexer_framework.Errors.Classes.{new_block_producer_error}
use chain_indexer_framework.Store.{Outcome, done, failed}
use chain_indexer_framework.Formatter.Types.{
  Amount, number, text, Web3Block, Web3Receipt, Web3Transaction, Libraries, OwnReceipt,
  OwnTransaction, OwnBlock,
}
use chain_indexer_framework.Formatter.Format.{
  format_transaction_receipt, format_transaction_object, format_block_with_transactions,
}
use chain_indexer_framework.Getter.Node.{
  Node, Handling, throws, may_retry, retrying, and_then, collect,
}

-- `${blockNumber}`
abbrev pub print_amount : Amount → String
print_amount (number n) = decimal n
print_amount (text t) = t

unfoldable pub rpc_error : (name message : String) → (origin : Option String) → JsObject
unfolding new_block_producer_error
rpc_error name message origin = new_block_producer_error (record {
  name = some name;
  code = some Codes.rpc_err;
  is_fatal = some true;
  message = some message;
  origin = origin;
  stack = none;
})

unfoldable pub not_found_error : (name message : String) → JsObject
unfolding new_block_producer_error
not_found_error name message = new_block_producer_error (record {
  name = some name;
  code = some Codes.receipt_not_found;
  is_fatal = some true;
  message = some message;
  origin = some "remote";
  stack = none;
})

-- `error instanceof BlockProducerError`
abbrev pub is_own_error : JsValue → Bool
is_own_error (object o) = is_block_producer_class o.class
is_own_error other = false

-- The `catch` of both methods: an error of another class is thrown at once, in a new error.
abbrev pub handle_error : (JsValue → JsObject) → JsValue → Handling
handle_error wrap e = if is_own_error e then may_retry else throws (object (wrap e))

module _ (lib : Libraries) (node : Node) (stringify : JsValue → String) (max_retries : ℕ) where
  -- `getBlock`: the answer of the race with the timer.
  unfoldable pub get_header : Amount → node.State → Outcome node.Header × node.State
  unfolding rpc_error
  get_header block_number s =
      let (answer, s') = node.get_header_in_time block_number s in
      (
        elim answer [
          | none ↦ failed (
              object
                (rpc_error "Block producer error on getBlock" "timeout while fetching block" none))
          | some o ↦ o
        ],
        s',
      )

  abbrev pub get_latest_block_number : node.State → Outcome ℕ × node.State
  get_latest_block_number s = node.get_block_number s

  unfoldable pub receipt_failed : String → JsValue → JsObject
  unfolding rpc_error
  receipt_failed hash e =
      rpc_error "Block producer error on transaction receipt"
        ("Error fetching receipt for " ++ˢ hash ++ˢ ": " ++ˢ cause_of stringify e) (some "remote")

  -- The `try` block, on what the race gives.
  abbrev pub received : String → Option (Outcome (Option Web3Receipt)) → Outcome (OwnReceipt lib)
  received hash none = failed (
      object (
        rpc_error "Block producer error on getTransactionReceipt"
          "timeout while fetching transaction receipt" none))
  received hash (some (failed e)) = failed e
  received hash (some (done none)) = failed (
      object (
        not_found_error "Block producer error on transaction receipt"
          ("Transaction receipt not found for " ++ˢ hash ++ˢ ".")))
  received hash (some (done (some receipt))) = done (format_transaction_receipt lib receipt)

  abbrev pub ask_receipt : String → ℕ → node.State → Outcome (OwnReceipt lib) × node.State
  ask_receipt hash left s =
      let (answer, s') = node.get_receipt_in_time hash s in (received hash answer, s')

  unfoldable pub get_transaction_receipt :
      String → (left : ℕ) → node.State → Outcome (OwnReceipt lib) × node.State
  unfolding retrying
  get_transaction_receipt hash left s =
      retrying (ask_receipt hash) (handle_error (receipt_failed hash)) left s

  -- A transaction with its receipt.
  abbrev pub add_receipt : Web3Transaction → node.State → Outcome (OwnTransaction lib) × node.State
  add_receipt t s =
      and_then (get_transaction_receipt t.hash (max_retries + 1) s)
        (λ receipt s'. (done (format_transaction_object lib t receipt), s'))

  abbrev pub with_transactions :
      Web3Block → List (OwnTransaction lib) → node.State → Outcome (OwnBlock lib) × node.State
  with_transactions block transactions s =
      (done (format_block_with_transactions lib block transactions), s)

  abbrev pub fill_block :
      Amount → Option Web3Block → node.State → Outcome (OwnBlock lib) × node.State
  fill_block block_number none s = (
    failed (
        object (
          not_found_error "Block producer error on getBlockWithTransactions"
            ("null receipt found for block " ++ˢ print_amount block_number ++ˢ "."))),
    s,
  )
  fill_block block_number (some block) s =
      and_then (collect add_receipt block.transactions s) (with_transactions block)

  abbrev pub ask_block : Amount → ℕ → node.State → Outcome (OwnBlock lib) × node.State
  ask_block block_number left s = and_then (node.get_block block_number s) (fill_block block_number)

  unfoldable pub block_failed : Amount → JsValue → JsObject
  unfolding rpc_error
  block_failed block_number e =
      rpc_error "Block producer error on getBlockWithTransactions"
        ("Error fetching block "
          ++ˢ print_amount block_number
          ++ˢ " with receipts: "
          ++ˢ cause_of stringify e)
        (some "remote")

  unfoldable pub get_block_with_transaction_receipts :
      Amount → (left : ℕ) → node.State → Outcome (OwnBlock lib) × node.State
  unfolding retrying
  get_block_with_transaction_receipts block_number left s =
      retrying (ask_block block_number) (handle_error (block_failed block_number)) left s
