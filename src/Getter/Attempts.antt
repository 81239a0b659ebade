-- ===== src/Getter/Attempts.antt =====
-- How many requests for a block the getters of internal/block_getters send.
use chain_indexer_framework.Prelude.{
  ℕ, ◌+◌, ◌≤◌, ◌≡◌, refl, ◌∙◌, String, Option, none, some, List, arith,
}
use chain_indexer_framework.Errors.Value.{JsValue}
use chain_indexer_framework.Store.{Outcome, done, failed}
use chain_indexer_framework.Formatter.Types.{
  Amount, RawReceipt, Web3Block, Web3Transaction, Libraries, OwnReceipt,
}
use chain_indexer_framework.Formatter.Format.{format_raw_receipt}
use chain_indexer_framework.Getter.Node.{Node, collect}
use chain_indexer_framework.Getter.Base.{
  handle_error, receipt_failed, ask_receipt, get_transaction_receipt, block_failed,
  with_transactions, get_block_with_transaction_receipts,
}
use chain_indexer_framework.Getter.Base
use chain_indexer_framework.Getter.Erigon.{
  always_retry, find_optional, late, in_time, resend, resend_in_time,
  send_transaction_receipts_call, or_ask, ask_receipts, get_erigon_block,
}
use chain_indexer_framework.Getter.Erigon
use chain_indexer_framework.Getter.Trying.{
  and_then_counts, collect_counts, retrying_counts, retrying_keeps,
}

-- A count of the requests for a block, in the state of the node.
pub record CountsBlocks (node : Node) : Type 0 where
  pub count : node.State → ℕ
  pub block_counts : (n : Amount) (s : node.State) → count (node.get_block n s).1 ≡ count s + 1
  pub block_in_time_counts :
      (n : Amount) (s : node.State) → count (node.get_block_in_time n s).1 ≡ count s + 1
  pub receipt_keeps :
      (h : String) (s : node.State) → count (node.get_receipt_in_time h s).1 ≡ count s
  pub receipts_keep :
      (n : Amount) (s : node.State) → count (node.send_block_receipts n s).1 ≡ count s

module _ (lib : Libraries) (node : Node) (stringify : JsValue → String) (max_retries : ℕ)
    (counter : CountsBlocks node) where
  receipt_keeps_count :
      (hash : String) (left : ℕ) (s : node.State)
      → counter.count (get_transaction_receipt lib node stringify max_retries hash left s).1
        ≡ counter.count s
  unfolding get_transaction_receipt
  receipt_keeps_count hash left s =
      retrying_keeps counter.count (ask_receipt lib node stringify max_retries hash)
        (handle_error (receipt_failed lib node stringify max_retries hash))
        (λ left s. counter.receipt_keeps hash s) left s

  add_receipt_keeps :
      (t : Web3Transaction) (s : node.State)
      → counter.count (Base.add_receipt lib node stringify max_retries t s).1 ≡ counter.count s
  add_receipt_keeps t s =
      and_then_counts counter.count (counter.count s)
        (get_transaction_receipt lib node stringify max_retries t.hash (max_retries + 1) s) _
        (λ a s. refl) (receipt_keeps_count t.hash (max_retries + 1) s)

  fill_keeps :
      (n : Amount) (block : Option Web3Block) (s : node.State)
      → counter.count (Base.fill_block lib node stringify max_retries n block s).1 ≡ counter.count s
  fill_keeps n none s = refl
  fill_keeps n (some block) s =
      and_then_counts counter.count (counter.count s)
        (collect (Base.add_receipt lib node stringify max_retries) block.transactions s) _
        (λ a s. refl)
        (collect_counts counter.count (Base.add_receipt lib node stringify max_retries)
          block.transactions s add_receipt_keeps)

  try_counts :
      (n : Amount) (left : ℕ) (s : node.State)
      → counter.count (Base.ask_block lib node stringify max_retries n left s).1
        ≡ counter.count s + 1
  try_counts n left s =
      and_then_counts counter.count (counter.count s + 1) (node.get_block n s)
        (Base.fill_block lib node stringify max_retries n) (fill_keeps n) (counter.block_counts n s)

  module _ (trace : String) where
    or_ask_keeps :
        (hash : String) (r : Option (OwnReceipt lib)) (s : node.State)
        → counter.count (or_ask lib node stringify max_retries trace hash r s).1 ≡ counter.count s
    or_ask_keeps hash (some r) s = refl
    or_ask_keeps hash none s = receipt_keeps_count hash (max_retries + 1) s

    erigon_receipt_keeps :
        (receipts : Option (List RawReceipt)) (t : Web3Transaction) (s : node.State)
        → counter.count (Erigon.add_receipt lib node stringify max_retries trace receipts t s).1
          ≡ counter.count s
    erigon_receipt_keeps receipts t s =
        let own = format_raw_receipt lib (find_optional t.hash receipts) in
        and_then_counts counter.count (counter.count s)
          (or_ask lib node stringify max_retries trace t.hash own s) _ (λ a s. refl)
          (or_ask_keeps t.hash own s)

    erigon_fill_keeps :
        (block : Option Web3Block) (receipts : Option (List RawReceipt)) (s : node.State)
        → counter.count (Erigon.fill_block lib node stringify max_retries trace block receipts s).1
          ≡ counter.count s
    erigon_fill_keeps none receipts s = refl
    erigon_fill_keeps (some block) receipts s =
        let add = Erigon.add_receipt lib node stringify max_retries trace receipts in
        and_then_counts counter.count (counter.count s) (collect add block.transactions s) _
          (λ a s. refl)
          (collect_counts counter.count add block.transactions s (erigon_receipt_keeps receipts))

    in_time_counts :
        {A : Type 0} (message : String) (r : Option (Outcome A) × node.State) (n : ℕ)
        → counter.count r.1 ≡ n
        → counter.count (in_time lib node stringify max_retries trace message r).1 ≡ n
    in_time_counts message (none, s) n h = h
    in_time_counts message (some o, s) n h = h

    resend_keeps :
        (n : Amount) (r : Option (Outcome (Option (List RawReceipt))) × node.State) (k : ℕ)
        → counter.count r.1 ≡ k
        → counter.count (resend_in_time lib node stringify max_retries trace n r).1 ≡ k
    resend_keeps n (none, s) k h = h
    resend_keeps n (some (failed e), s) k h = h
    resend_keeps n (some (done (some rs)), s) k h = h
    resend_keeps n (some (done none), s) k h = counter.receipts_keep n s ∙ h

    erigon_receipts_keep :
        (n : Amount) (block : Option Web3Block) (s : node.State)
        → counter.count (ask_receipts lib node stringify max_retries trace n block s).1
          ≡ counter.count s
    unfolding send_transaction_receipts_call
    erigon_receipts_keep n block s =
        and_then_counts counter.count (counter.count s) _ _ (erigon_fill_keeps block) (
          in_time_counts _
            (resend_in_time lib node stringify max_retries trace n (node.send_block_receipts n s))
            (counter.count s)
            (resend_keeps n (node.send_block_receipts n s) (counter.count s)
              (counter.receipts_keep n s)))

    pub erigon_try_counts :
        (n : Amount) (left : ℕ) (s : node.State)
        → counter.count (Erigon.ask_block lib node stringify max_retries trace n left s).1
          ≡ counter.count s + 1
    erigon_try_counts n left s =
        and_then_counts counter.count (counter.count s + 1) _ _ (erigon_receipts_keep n) (
          in_time_counts _ (node.get_block_in_time n s) (counter.count s + 1)
            (counter.block_in_time_counts n s))

    -- Whatever the node answers, `BlockGetter` requests a block at most `maxRetries + 2` times before it
    -- gives it back or throws, one time more than `ErigonBlockGetter`, which requests it at most
    -- `maxRetries + 1` times.
    pub block_requests_bounded :
        (n : Amount) (s : node.State)
        → (counter.count
              (get_block_with_transaction_receipts lib node stringify max_retries n
                (max_retries + 1)
                s).1
            ≤ counter.count s + (max_retries + 2))
          × (counter.count (get_erigon_block lib node stringify max_retries trace n max_retries s).1
              ≤ counter.count s + (max_retries + 1))
    unfolding get_block_with_transaction_receipts get_erigon_block
    block_requests_bounded n s =
        let base =
          retrying_counts counter.count (Base.ask_block lib node stringify max_retries n)
            (handle_error (block_failed lib node stringify max_retries n)) (try_counts n)
            (max_retries + 1) s in
        let erigon =
          retrying_counts counter.count (Erigon.ask_block lib node stringify max_retries trace n)
            always_retry (erigon_try_counts n) max_retries s in
        (omega (arith, base), omega (arith, erigon))
