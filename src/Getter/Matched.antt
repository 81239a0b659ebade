-- ===== src/Getter/Matched.antt =====
-- What a block that the getters of internal/block_getters give back is made of.
use chain_indexer_framework.Prelude.{
  ℕ, ◌+◌, ◌≡◌, refl, sym, ap, ◌∙◌, inl, inr, String, Option, none, some, List, [], ◌∷◌, arith,
  Bool-cases,
}
use chain_indexer_framework.Prelude.Text.{str_eq, str_eq_iff}
use chain_indexer_framework.Errors.Value.{JsValue}
use chain_indexer_framework.Store.{Outcome, done, failed}
use chain_indexer_framework.Formatter.Types.{
  RawReceipt, RawBlock, Web3Block, Web3Receipt, Libraries, OwnReceipt, OwnTransaction, OwnBlock,
}
use chain_indexer_framework.Formatter.Format.{
  format_transaction_receipt, format_some_receipt, format_raw_receipt, format_transaction_object,
  format_raw_transaction_object, format_block_with_transactions, format_raw_block,
}
use chain_indexer_framework.Getter.Node.{Node, may_retry, and_then, collect, find_receipt}
use chain_indexer_framework.Getter.Base.{
  handle_error, receipt_failed, received, ask_receipt, get_transaction_receipt,
}
use chain_indexer_framework.Getter.Erigon.{or_ask}
use chain_indexer_framework.Getter.Failures.{Anything}
use chain_indexer_framework.Getter.Trying.{Gives, and_then-Gives, retrying-Gives}

-- Two lists with as many items, and each item of the one with that of the other.
abbrev pub Each : {A B : Type 0} → (A → B → Type 0) → List A → List B → Type 0
Each R [] [] = Unit
Each R [] (b ∷ bs) = ⊥
Each R (a ∷ rest) [] = ⊥
Each R (a ∷ rest) (b ∷ bs) = R a b × Each R rest bs

pub collect-Each :
    {S T B : Type 0} (R : T → B → Type 0) (f : T → S → Outcome B × S)
    → ((t : T) (s : S) → Gives (R t) Anything (f t s).0)
    → (ts : List T) (s : S) → Gives (Each R ts) Anything (collect f ts s).0
unfolding collect
collect-Each R f each [] s = tt
collect-Each R f each (t ∷ ts) s =
    and_then-Gives (R t) (Each R (t ∷ ts)) Anything (f t s) _ (each t s) (λ b s' first.
      and_then-Gives (Each R ts) (Each R (t ∷ ts)) Anything (collect f ts s') _
        (collect-Each R f each ts s') (λ bs s'' rest. (first, rest)))

-- Nothing is asked of an error.
pub loosen :
    {A : Type 0} (P : A → Type 0) (H : JsValue → Type 0) (o : Outcome A)
    → Gives P Anything o
    → Gives P (λ e. H e → Unit) o
loosen P H (done a) g = g
loosen P H (failed e) g = λ h. tt

pub Gives-Anything : {A : Type 0} (o : Outcome A) → Gives Anything Anything o
Gives-Anything (done a) = tt
Gives-Anything (failed e) = tt

-- What the node documents: the receipt that it gives for a hash is of the transaction with that hash.
pub record AnswersByHash (node : Node) : Type 0 where
  pub own_receipt :
      (hash : String) (s : node.State) (receipt : Web3Receipt)
      → (node.get_receipt_in_time hash s).0 ≡ some (done (some receipt))
      → receipt.transaction_hash ≡ hash

pub found-hash :
    (hash : String) (receipts : List RawReceipt) (receipt : RawReceipt)
    → find_receipt hash receipts ≡ some receipt
    → receipt.base.transaction_hash ≡ hash
unfolding find_receipt
found-hash hash [] receipt h = absurd (ground (arith, h))
found-hash hash (r ∷ rs) receipt h = elim (Bool-cases (str_eq r.base.transaction_hash hash)) [
  | inl same ↦ ground (arith, h, same, (str_eq_iff r.base.transaction_hash hash).0 same)
  | inr other ↦ found-hash hash rs receipt (ground (arith, h, other))
]

module _ (lib : Libraries) where
  -- The own form of a transaction, with a receipt of the same hash.
  abbrev pub Carries :
      {T : Type 0}
      → (T → OwnReceipt lib → OwnTransaction lib)
      → (T → String)
      → T
      → OwnTransaction lib
      → Type 0
  Carries format hash t own = (own ≡ format t own.receipt) × (own.receipt.transaction_hash ≡ hash t)

  -- The own form of a block that was answered, with all its transactions in their order.
  pub record Assembled {T B : Type 0} (format : T → OwnReceipt lib → OwnTransaction lib)
      (hash : T → String) (format_block : B → List (OwnTransaction lib) → OwnBlock lib)
      (transactions : B → List T) (Answered : B → Type 0) (own : OwnBlock lib) : Type 0 where
    pub block : B
    pub answered : Answered block
    pub formatted : own ≡ format_block block own.transactions
    pub matched : Each (Carries format hash) (transactions block) own.transactions

  abbrev pub IsWeb3Block : (Web3Block → Type 0) → OwnBlock lib → Type 0
  IsWeb3Block =
      Assembled (format_transaction_object lib) (λ t. t.hash) (format_block_with_transactions lib)
        (λ b. b.transactions)

  abbrev pub IsRawBlock : (RawBlock → Type 0) → OwnBlock lib → Type 0
  IsRawBlock =
      Assembled (format_raw_transaction_object lib) (λ t. t.hash) (format_raw_block lib)
        (λ b. b.transactions)

  abbrev OfHash : String → OwnReceipt lib → Type 0
  OfHash hash receipt = receipt.transaction_hash ≡ hash

  module _ (node : Node) (stringify : JsValue → String) (max_retries : ℕ)
      (answers : AnswersByHash node) where
    received-OfHash :
        (hash : String) (o : Option (Outcome (Option Web3Receipt)))
        → ((receipt : Web3Receipt)
            → o ≡ some (done (some receipt))
            → receipt.transaction_hash ≡ hash)
        → Gives (OfHash hash) Anything (received lib node stringify max_retries hash o)
    unfolding format_transaction_receipt
    received-OfHash hash none own = tt
    received-OfHash hash (some (failed e)) own = tt
    received-OfHash hash (some (done none)) own = tt
    received-OfHash hash (some (done (some receipt))) own = own receipt refl

    pub get_transaction_receipt-OfHash :
        (hash : String) (left : ℕ) (s : node.State)
        → Gives
            (OfHash hash)
            Anything
            (get_transaction_receipt lib node stringify max_retries hash left s).0
    unfolding get_transaction_receipt
    get_transaction_receipt-OfHash hash left s =
        let handle = handle_error (receipt_failed lib node stringify max_retries hash) in
        retrying-Gives (ask_receipt lib node stringify max_retries hash) handle (OfHash hash)
          Anything (λ e x h. tt)
          (λ left s.
            loosen (OfHash hash) (λ e. handle e ≡ may_retry) _
              (received-OfHash hash (node.get_receipt_in_time hash s).0
                (answers.own_receipt hash s)))
          left s

    -- The transaction that is made of a receipt.
    pub made-Carries :
        {T : Type 0} (format : T → OwnReceipt lib → OwnTransaction lib) (hash : T → String) (t : T)
        → ((r : OwnReceipt lib) → (format t r).receipt ≡ r)
        → (r : Outcome (OwnReceipt lib) × node.State) → Gives (OfHash (hash t)) Anything r.0
        → Gives
            (Carries format hash t)
            Anything
            (and_then r (λ receipt s. (done (format t receipt), s))).0
    made-Carries format hash t keeps (done r, s) g =
        (ap (format t) (sym (keeps r)), ap (λ receipt. receipt.transaction_hash) (keeps r) ∙ g)
    made-Carries format hash t keeps (failed e, s) g = tt

    pub or_ask-OfHash :
        (trace hash : String) (raw : Option RawReceipt) (s : node.State)
        → ((r : RawReceipt) → raw ≡ some r → r.base.transaction_hash ≡ hash)
        → Gives
            (OfHash hash)
            Anything
            (or_ask lib node stringify max_retries trace hash (format_raw_receipt lib raw) s).0
    unfolding format_raw_receipt format_some_receipt format_transaction_receipt
    or_ask-OfHash trace hash none s own = get_transaction_receipt-OfHash hash (max_retries + 1) s
    or_ask-OfHash trace hash (some raw) s own = own raw refl
