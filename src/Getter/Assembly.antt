-- ===== src/Getter/Assembly.antt =====
-- The blocks that the getters of internal/block_getters give back, assembled from the node's answers.
use chain_indexer_framework.Prelude.{ltb, ℕ, ◌≡◌, refl, Bool, String, Option, none, some, List}
use chain_indexer_framework.Errors.Value.{JsValue}
use chain_indexer_framework.Store.{Outcome, done, failed}
use chain_indexer_framework.Formatter.Types.{
  Amount, RawReceipt, RawBlock, RawTransaction, Web3Block, Libraries, OwnTransaction,
}
use chain_indexer_framework.Formatter.Format.{
  format_raw_receipt, format_transaction_object, format_raw_transaction_object,
  format_block_with_transactions, format_raw_block,
}
use chain_indexer_framework.Getter.Node.{
  Node, QuickNodeResponse, may_retry, and_then, collect, find_receipt,
}
use chain_indexer_framework.Getter.Base.{
  handle_error, receipt_failed, received, ask_receipt, get_transaction_receipt, block_failed,
  get_block_with_transaction_receipts,
}
use chain_indexer_framework.Getter.Base
use chain_indexer_framework.Getter.Erigon.{
  always_retry, find_optional, in_time, send_transaction_receipts_call, or_ask, ask_receipts,
  get_erigon_block,
}
use chain_indexer_framework.Getter.Erigon
use chain_indexer_framework.Getter.QuickNode.{send_to, answered, get_quicknode_block}
use chain_indexer_framework.Getter.QuickNode
use chain_indexer_framework.Getter.Failures.{Anything}
use chain_indexer_framework.Getter.Trying.{Gives, retrying-Gives}
use chain_indexer_framework.Getter.Matched.{
  Each, collect-Each, loosen, AnswersByHash, found-hash, Carries, IsWeb3Block, IsRawBlock,
  made-Carries, or_ask-OfHash,
}
use chain_indexer_framework.Getter.Web3Blocks.{base_fill-IsWeb3Block, erigon_fill-IsWeb3Block}

module _ (lib : Libraries) (node : Node) (stringify : JsValue → String) (max_retries : ℕ)
    (answers : AnswersByHash node) (trace : String)
    (alternate : Option
      (Amount → node.State → Option (Outcome (Option QuickNodeResponse)) × node.State)) where
  quicknode_receipt-Carries :
      (receipts : List RawReceipt) (t : RawTransaction) (s : node.State)
      → Gives
          (Carries lib (format_raw_transaction_object lib) (λ t. t.hash) t)
          Anything
          (QuickNode.add_receipt lib node stringify max_retries trace alternate receipts t s).0
  unfolding format_raw_transaction_object format_transaction_object
  quicknode_receipt-Carries receipts t s =
      made-Carries lib node stringify max_retries answers (format_raw_transaction_object lib)
        (λ t. t.hash) t (λ r. refl)
        (or_ask lib node stringify max_retries trace t.hash
          (format_raw_receipt lib (find_receipt t.hash receipts)) s)
        (or_ask-OfHash lib node stringify max_retries answers trace t.hash
          (find_receipt t.hash receipts) s (found-hash t.hash receipts))

  raw-IsRawBlock :
      (Answered : RawBlock → Type 0) (block : RawBlock)
      → Answered block
      → (r : Outcome (List (OwnTransaction lib)) × node.State)
      → Gives
          (Each (Carries lib (format_raw_transaction_object lib) (λ t. t.hash)) block.transactions)
          Anything
          r.0
      → Gives
          (IsRawBlock lib Answered)
          Anything
          (and_then r (λ ts s'. (done (format_raw_block lib block ts), s'))).0
  unfolding format_raw_block format_block_with_transactions
  raw-IsRawBlock Answered block answered (done ts, s) g = record {
    block = block;
    answered = answered;
    formatted = refl;
    matched = g;
  }
  raw-IsRawBlock Answered block answered (failed e, s) g = tt

  quicknode_fill-IsRawBlock :
      (Answered : RawBlock → Type 0) (n : Amount) (o : Option (Outcome (Option QuickNodeResponse)))
      (s : node.State)
      → ((response : QuickNodeResponse) → o ≡ some (done (some response)) → Answered response.block)
      → Gives
          (IsRawBlock lib Answered)
          Anything
          (and_then
            (answered lib node stringify max_retries trace alternate n o, s)
            (QuickNode.fill_block lib node stringify max_retries trace alternate)).0
  quicknode_fill-IsRawBlock Answered n none s given = tt
  quicknode_fill-IsRawBlock Answered n (some (failed e)) s given = tt
  quicknode_fill-IsRawBlock Answered n (some (done none)) s given = tt
  quicknode_fill-IsRawBlock Answered n (some (done (some response))) s given =
      let add =
        QuickNode.add_receipt lib node stringify max_retries trace alternate response.receipts in
      raw-IsRawBlock Answered response.block (given response refl)
        (collect add response.block.transactions s)
        (collect-Each (Carries lib (format_raw_transaction_object lib) (λ t. t.hash)) add
          (quicknode_receipt-Carries response.receipts) response.block.transactions s)

  -- What a node answered for block `n`, at some time.
  abbrev pub FromNode : Amount → Web3Block → Type 0
  FromNode n block = (s : node.State) × ((node.get_block n s).0 ≡ done (some block))

  abbrev pub FromNodeInTime : Amount → Web3Block → Type 0
  FromNodeInTime n block =
      (s : node.State) × ((node.get_block_in_time n s).0 ≡ some (done (some block)))

  abbrev pub FromQuickNode : Amount → RawBlock → Type 0
  FromQuickNode n block =
      (again : Bool) × (s : node.State) × (receipts : List RawReceipt) × ((send_to lib node
          stringify max_retries trace alternate again alternate n s).0
        ≡ some (done (some (record { block = block; receipts = receipts }))))

  base-IsWeb3Block :
      (n : Amount) (left : ℕ) (s : node.State)
      → Gives
          (IsWeb3Block lib (FromNode n))
          Anything
          (get_block_with_transaction_receipts lib node stringify max_retries n left s).0
  unfolding get_block_with_transaction_receipts
  base-IsWeb3Block n left s =
      let handle = handle_error (block_failed lib node stringify max_retries n) in
      retrying-Gives (Base.ask_block lib node stringify max_retries n) handle
        (IsWeb3Block lib (FromNode n)) Anything (λ e x h. tt)
        (λ left s.
          loosen (IsWeb3Block lib (FromNode n)) (λ e. handle e ≡ may_retry) _
            (base_fill-IsWeb3Block lib node stringify max_retries answers (FromNode n) n
              (node.get_block n s).0 (node.get_block n s).1 (λ block eq. (s, eq))))
        left s

  erigon-IsWeb3Block :
      (n : Amount) (left : ℕ) (s : node.State)
      → Gives
          (IsWeb3Block lib (FromNodeInTime n))
          Anything
          (get_erigon_block lib node stringify max_retries trace n left s).0
  unfolding get_erigon_block
  erigon-IsWeb3Block n left s =
      retrying-Gives (Erigon.ask_block lib node stringify max_retries trace n) always_retry
        (IsWeb3Block lib (FromNodeInTime n)) Anything (λ e x h. tt)
        (λ left s.
          loosen (IsWeb3Block lib (FromNodeInTime n)) (λ e. always_retry e ≡ may_retry) _
            (erigon_fill-IsWeb3Block lib node stringify max_retries answers trace (FromNodeInTime n)
              n (node.get_block_in_time n s).0 _ (node.get_block_in_time n s).1
              (λ block eq. (s, eq))))
        left s

  quicknode-IsRawBlock :
      (n : Amount) (left : ℕ) (s : node.State)
      → Gives
          (IsRawBlock lib (FromQuickNode n))
          Anything
          (get_quicknode_block lib node stringify max_retries trace alternate n left s).0
  unfolding get_quicknode_block
  quicknode-IsRawBlock n left s =
      retrying-Gives (QuickNode.ask_block lib node stringify max_retries trace alternate n)
        always_retry (IsRawBlock lib (FromQuickNode n)) Anything (λ e x h. tt)
        (λ left s.
          let again = ltb left max_retries in
          let answer = send_to lib node stringify max_retries trace alternate again alternate n s in
          loosen (IsRawBlock lib (FromQuickNode n)) (λ e. always_retry e ≡ may_retry) _
            (quicknode_fill-IsRawBlock (FromQuickNode n) n answer.0 answer.1
              (λ response eq. (again, s, response.receipts, eq))))
        left s

  -- Let the node answer a request for a receipt by hash with the receipt of that hash. Whatever else it
  -- answers, and however many tries are left: a block that `BlockGetter`, `ErigonBlockGetter` or
  -- `QuickNodeBlockGetter` gives back is the formatted form of one that a node answered for the number
  -- asked, with all transactions of that block in their order, each formatted and with a receipt that
  -- has the transaction's hash.
  pub getters-Assembled :
      (n : Amount) (left : ℕ) (s : node.State)
      → Gives
          (IsWeb3Block lib (FromNode n))
          Anything
          (get_block_with_transaction_receipts lib node stringify max_retries n left s).0
        × Gives
            (IsWeb3Block lib (FromNodeInTime n))
            Anything
            (get_erigon_block lib node stringify max_retries trace n left s).0
        × Gives
            (IsRawBlock lib (FromQuickNode n))
            Anything
            (get_quicknode_block lib node stringify max_retries trace alternate n left s).0
  getters-Assembled n left s =
      (base-IsWeb3Block n left s, erigon-IsWeb3Block n left s, quicknode-IsRawBlock n left s)
