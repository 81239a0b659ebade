-- ===== src/Getter/Web3Blocks.antt =====
-- One try of `BlockGetter` and of `ErigonBlockGetter` for a block.
use chain_indexer_framework.Prelude.{ℕ, ◌+◌, ◌≡◌, refl, String, Option, none, some, List, arith}
use chain_indexer_framework.Errors.Value.{JsValue}
use chain_indexer_framework.Store.{Outcome, done, failed}
use chain_indexer_framework.Formatter.Types.{
  Amount, RawReceipt, Web3Block, Web3Transaction, Libraries, OwnTransaction,
}
use chain_indexer_framework.Formatter.Format.{
  format_raw_receipt, format_transaction_object, format_block_with_transactions,
}
use chain_indexer_framework.Getter.Node.{Node, and_then, collect}
use chain_indexer_framework.Getter.Base.{
  handle_error, receipt_failed, received, ask_receipt, get_transaction_receipt, block_failed,
  get_block_with_transaction_receipts,
}
use chain_indexer_framework.Getter.Base
use chain_indexer_framework.Getter.Erigon.{
  always_retry, find_optional, in_time, send_transaction_receipts_call, or_ask, ask_receipts,
  get_erigon_block,
}
use chain_indexer_framework.Getter.Erigon
use chain_indexer_framework.Getter.QuickNode.{answered}
use chain_indexer_framework.Getter.Failures.{Anything}
use chain_indexer_framework.Getter.Trying.{Gives, and_then-Gives}
use chain_indexer_framework.Getter.Matched.{
  Each, collect-Each, Gives-Anything, AnswersByHash, found-hash, Carries, IsWeb3Block, made-Carries,
  or_ask-OfHash, get_transaction_receipt-OfHash,
}

module _ (lib : Libraries) (node : Node) (stringify : JsValue → String) (max_retries : ℕ)
    (answers : AnswersByHash node) where
  -- Base
  base_receipt-Carries :
      (t : Web3Transaction) (s : node.State)
      → Gives
          (Carries lib (format_transaction_object lib) (λ t. t.hash) t)
          Anything
          (Base.add_receipt lib node stringify max_retries t s).0
  unfolding format_transaction_object
  base_receipt-Carries t s =
      made-Carries lib node stringify max_retries answers (format_transaction_object lib)
        (λ t. t.hash) t (λ r. refl)
        (get_transaction_receipt lib node stringify max_retries t.hash (max_retries + 1) s)
        (get_transaction_receipt-OfHash lib node stringify max_retries answers t.hash
          (max_retries + 1) s)

  formatted-IsWeb3Block :
      (Answered : Web3Block → Type 0) (block : Web3Block)
      → Answered block
      → (r : Outcome (List (OwnTransaction lib)) × node.State)
      → Gives
          (Each (Carries lib (format_transaction_object lib) (λ t. t.hash)) block.transactions)
          Anything
          r.0
      → Gives
          (IsWeb3Block lib Answered)
          Anything
          (and_then r (Base.with_transactions lib node stringify max_retries block)).0
  unfolding format_block_with_transactions
  formatted-IsWeb3Block Answered block answered (done ts, s) g = record {
    block = block;
    answered = answered;
    formatted = refl;
    matched = g;
  }
  formatted-IsWeb3Block Answered block answered (failed e, s) g = tt

  pub base_fill-IsWeb3Block :
      (Answered : Web3Block → Type 0) (n : Amount) (o : Outcome (Option Web3Block)) (s : node.State)
      → ((block : Web3Block) → o ≡ done (some block) → Answered block)
      → Gives
          (IsWeb3Block lib Answered)
          Anything
          (and_then (o, s) (Base.fill_block lib node stringify max_retries n)).0
  base_fill-IsWeb3Block Answered n (failed e) s answered = tt
  base_fill-IsWeb3Block Answered n (done none) s answered = tt
  base_fill-IsWeb3Block Answered n (done (some block)) s answered =
      formatted-IsWeb3Block Answered block (answered block refl)
        (collect (Base.add_receipt lib node stringify max_retries) block.transactions s)
        (collect-Each (Carries lib (format_transaction_object lib) (λ t. t.hash))
          (Base.add_receipt lib node stringify max_retries) base_receipt-Carries block.transactions
          s)

  -- Erigon
  find_optional-hash :
      (hash : String) (receipts : Option (List RawReceipt)) (r : RawReceipt)
      → find_optional hash receipts ≡ some r
      → r.base.transaction_hash ≡ hash
  find_optional-hash hash none r h = absurd (ground (arith, h))
  find_optional-hash hash (some receipts) r h = found-hash hash receipts r h

  module _ (trace : String) where
    erigon_receipt-Carries :
        (receipts : Option (List RawReceipt)) (t : Web3Transaction) (s : node.State)
        → Gives
            (Carries lib (format_transaction_object lib) (λ t. t.hash) t)
            Anything
            (Erigon.add_receipt lib node stringify max_retries trace receipts t s).0
    unfolding format_transaction_object
    erigon_receipt-Carries receipts t s =
        made-Carries lib node stringify max_retries answers (format_transaction_object lib)
          (λ t. t.hash) t (λ r. refl)
          (or_ask lib node stringify max_retries trace t.hash
            (format_raw_receipt lib (find_optional t.hash receipts)) s)
          (or_ask-OfHash lib node stringify max_retries answers trace t.hash
            (find_optional t.hash receipts) s (find_optional-hash t.hash receipts))

    pub erigon_fill-IsWeb3Block :
        (Answered : Web3Block → Type 0) (n : Amount) (o : Option (Outcome (Option Web3Block)))
        (message : String) (s : node.State)
        → ((block : Web3Block) → o ≡ some (done (some block)) → Answered block)
        → Gives
            (IsWeb3Block lib Answered)
            Anything
            (and_then
              (in_time lib node stringify max_retries trace message (o, s))
              (ask_receipts lib node stringify max_retries trace n)).0
    erigon_fill-IsWeb3Block Answered n none message s answered = tt
    erigon_fill-IsWeb3Block Answered n (some (failed e)) message s answered = tt
    erigon_fill-IsWeb3Block Answered n (some (done none)) message s answered =
        and_then-Gives Anything (IsWeb3Block lib Answered) Anything _
          (Erigon.fill_block lib node stringify max_retries trace none) (Gives-Anything _)
          (λ receipts s' h. tt)
    erigon_fill-IsWeb3Block Answered n (some (done (some block))) message s answered =
        and_then-Gives Anything (IsWeb3Block lib Answered) Anything _
          (Erigon.fill_block lib node stringify max_retries trace (some block)) (Gives-Anything _)
          (λ receipts s' h.
            formatted-IsWeb3Block Answered block (answered block refl)
              (collect (Erigon.add_receipt lib node stringify max_retries trace receipts)
                block.transactions s')
              (collect-Each (Carries lib (format_transaction_object lib) (λ t. t.hash))
                (Erigon.add_receipt lib node stringify max_retries trace receipts)
                (erigon_receipt-Carries receipts) block.transactions s'))
