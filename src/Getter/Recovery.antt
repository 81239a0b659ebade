-- ===== src/Getter/Recovery.antt =====
-- When `ErigonBlockGetter` of internal/block_getters/erigon_block_getter.ts gets a block in the end.
use chain_indexer_framework.Prelude.{
  ℕ, zero, suc, ◌+◌, ◌≤◌, ◌≡◌, String, Option, none, some, List, [], ◌∷◌, arith, dec_le,
}
use chain_indexer_framework.Errors.Value.{JsValue}
use chain_indexer_framework.Store.{Outcome, done, failed}
use chain_indexer_framework.Formatter.Types.{
  Amount, RawReceipt, Web3Block, Web3Receipt, Web3Transaction, Libraries, OwnReceipt, OwnBlock,
}
use chain_indexer_framework.Formatter.Format.{format_raw_receipt}
use chain_indexer_framework.Getter.Node.{Node, after_try, retrying, and_then, collect}
use chain_indexer_framework.Getter.Base.{get_transaction_receipt}
use chain_indexer_framework.Getter.Erigon.{
  always_retry, find_optional, in_time, resend_in_time, send_transaction_receipts_call, or_ask,
  ask_receipts, get_erigon_block,
}
use chain_indexer_framework.Getter.Erigon
use chain_indexer_framework.Getter.Attempts.{CountsBlocks, erigon_try_counts}

-- An outcome that is a result, in a state that satisfies `K`.
abbrev pub Succeeds : {A S : Type 0} → (S → Type 0) → Outcome A × S → Type 0
Succeeds K (done a, s) = K s
Succeeds K (failed e, s) = ⊥

module _ {S : Type 0} (K : S → Type 0) where
  pub and_then-Succeeds :
      {A B : Type 0} (r : Outcome A × S) (f : A → S → Outcome B × S)
      → Succeeds K r
      → ((a : A) (s : S) → K s → Succeeds K (f a s))
      → Succeeds K (and_then r f)
  and_then-Succeeds (done a, s) f h k = k a s h
  and_then-Succeeds (failed e, s) f h k = absurd h

  pub collect-Succeeds :
      {T B : Type 0} (f : T → S → Outcome B × S)
      → ((t : T) (s : S) → K s → Succeeds K (f t s))
      → (ts : List T) (s : S) → K s
      → Succeeds K (collect f ts s)
  unfolding collect
  collect-Succeeds f each [] s k = k
  collect-Succeeds f each (t ∷ ts) s k = and_then-Succeeds (f t s) _ (each t s k) (λ b s' k'.
      and_then-Succeeds (collect f ts s') _ (collect-Succeeds f each ts s' k') (λ bs s'' k''. k''))

-- The node answers every request, in time, from its `k`-th request for a block on.
pub record AnswersFrom (node : Node) (counter : CountsBlocks node) (k : ℕ) : Type 0 where
  pub block_there :
      (n : Amount) (s : node.State)
      → k ≤ counter.count s
      → (block : Web3Block) × ((node.get_block_in_time n s).0 ≡ some (done (some block)))
  pub receipts_there :
      (n : Amount) (s : node.State)
      → k ≤ counter.count s
      → (receipts : List RawReceipt) × ((node.send_block_receipts n s).0
          ≡ some (done (some receipts)))
  pub receipt_there :
      (hash : String) (s : node.State)
      → k ≤ counter.count s
      → (receipt : Web3Receipt) × ((node.get_receipt_in_time hash s).0 ≡ some (done (some receipt)))

module _ (lib : Libraries) (node : Node) (stringify : JsValue → String) (max_retries : ℕ)
    (trace : String) (counter : CountsBlocks node) (k : ℕ)
    (answers : AnswersFrom node counter k) where
  Ready : node.State → Type 0
  Ready s = k ≤ counter.count s

  receipt-Succeeds :
      (hash : String) (left : ℕ) (s : node.State)
      → Ready s
      → Succeeds Ready (get_transaction_receipt lib node stringify max_retries hash left s)
  unfolding get_transaction_receipt retrying Ready
  receipt-Succeeds hash zero s ready =
      let (receipt, eq) = answers.receipt_there hash s ready in
      let keeps = counter.receipt_keeps hash s in rw eq (omega (arith, ready, keeps))
  receipt-Succeeds hash (suc left) s ready =
      let (receipt, eq) = answers.receipt_there hash s ready in
      let keeps = counter.receipt_keeps hash s in rw eq (omega (arith, ready, keeps))

  or_ask-Succeeds :
      (hash : String) (r : Option (OwnReceipt lib)) (s : node.State)
      → Ready s
      → Succeeds Ready (or_ask lib node stringify max_retries trace hash r s)
  or_ask-Succeeds hash (some r) s ready = ready
  or_ask-Succeeds hash none s ready = receipt-Succeeds hash (max_retries + 1) s ready

  add_receipt-Succeeds :
      (receipts : Option (List RawReceipt)) (t : Web3Transaction) (s : node.State)
      → Ready s
      → Succeeds Ready (Erigon.add_receipt lib node stringify max_retries trace receipts t s)
  add_receipt-Succeeds receipts t s ready =
      let own = format_raw_receipt lib (find_optional t.hash receipts) in
      and_then-Succeeds Ready (or_ask lib node stringify max_retries trace t.hash own s) _
        (or_ask-Succeeds t.hash own s ready) (λ a s r. r)

  fill_block-Succeeds :
      (block : Web3Block) (receipts : Option (List RawReceipt)) (s : node.State)
      → Ready s
      → Succeeds Ready
          (Erigon.fill_block lib node stringify max_retries trace (some block) receipts s)
  fill_block-Succeeds block receipts s ready =
      let add = Erigon.add_receipt lib node stringify max_retries trace receipts in
      and_then-Succeeds Ready (collect add block.transactions s) _
        (collect-Succeeds Ready add (add_receipt-Succeeds receipts) block.transactions s ready)
        (λ a s r. r)

  receipts_in_time-Succeeds :
      (n : Amount) (message : String) (s : node.State)
      → Ready s
      → Succeeds Ready (
          in_time lib node stringify max_retries trace message
            (send_transaction_receipts_call lib node stringify max_retries trace n s))
  unfolding send_transaction_receipts_call Ready
  receipts_in_time-Succeeds n message s ready =
      let (receipts, eq) = answers.receipts_there n s ready in
      let keeps = counter.receipts_keep n s in rw eq (omega (arith, ready, keeps))

  ask_block-Succeeds :
      (n : Amount) (left : ℕ) (s : node.State)
      → Ready s
      → Succeeds Ready (Erigon.ask_block lib node stringify max_retries trace n left s)
  unfolding Ready
  ask_block-Succeeds n left s ready =
      let (block, eq) = answers.block_there n s ready in
      let counts = counter.block_in_time_counts n s in
      let s' = (node.get_block_in_time n s).1 in
      let ready' : k ≤ counter.count s' = omega (arith, ready, counts) in
      rw eq (
        and_then-Succeeds Ready
          (in_time lib node stringify max_retries trace _
            (send_transaction_receipts_call lib node stringify max_retries trace n s'))
          _ (receipts_in_time-Succeeds n _ s' ready')
          (λ receipts s'' r. fill_block-Succeeds block receipts s'' r))

  -- A result, in any state.
  abbrev pub IsDone : {A : Type 0} → Outcome A × node.State → Type 0
  IsDone r = Succeeds (λ s. Unit) r

  settled-IsDone :
      (n : Amount) (r : Outcome (OwnBlock lib) × node.State)
      (again : JsValue → Outcome (OwnBlock lib) × node.State)
      → Succeeds Ready r
      → IsDone (
          after_try
            (Erigon.ask_block lib node stringify max_retries trace n)
            always_retry
            r.0
            again
            r.1)
  settled-IsDone n (done a, s) again h = tt
  settled-IsDone n (failed e, s) again h = absurd h

  tried-IsDone :
      (n : Amount) (r : Outcome (OwnBlock lib) × node.State)
      (again : JsValue → Outcome (OwnBlock lib) × node.State)
      → ((e : JsValue) → IsDone (again e))
      → IsDone (
          after_try
            (Erigon.ask_block lib node stringify max_retries trace n)
            always_retry
            r.0
            again
            r.1)
  tried-IsDone n (done a, s) again h = tt
  tried-IsDone n (failed e, s) again h = h e

  -- Let the node answer every request, in time, from the `k`-th request for a block on, where no more
  -- than `left` of the requests before that are still to come. Then `ErigonBlockGetter` with `left`
  -- tries after the first gives a block back and throws nothing, whatever failed before.
  pub get_erigon_block-IsDone :
      (n : Amount) (left : ℕ) (s : node.State)
      → k ≤ counter.count s + left
      → IsDone (get_erigon_block lib node stringify max_retries trace n left s)
  unfolding get_erigon_block retrying Ready
  get_erigon_block-IsDone n zero s h =
      settled-IsDone n (Erigon.ask_block lib node stringify max_retries trace n zero s) _
        (ask_block-Succeeds n zero s (omega (arith, h)))
  get_erigon_block-IsDone n (suc left) s h = elim (dec_le k (counter.count s)) [
    | yes ready ↦
        settled-IsDone n (Erigon.ask_block lib node stringify max_retries trace n (suc left) s) _
          (ask_block-Succeeds n (suc left) s ready)
    | no later ↦
        let counts =
          erigon_try_counts lib node stringify max_retries counter trace n (suc left) s in
        let s' = (Erigon.ask_block lib node stringify max_retries trace n (suc left) s).1 in
        tried-IsDone n (Erigon.ask_block lib node stringify max_retries trace n (suc left) s) _
          (λ e. get_erigon_block-IsDone n left s' (omega (arith, h, counts)))
  ]
