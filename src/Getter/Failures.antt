-- ===== src/Getter/Failures.antt =====
-- Which errors internal/block_getters/block_getter.ts throws.
use chain_indexer_framework.Prelude.{
  ℕ, ◌≡◌, refl, subst, inl, inr, true, String, Option, arith, Bool-cases,
}
use chain_indexer_framework.Errors.Value.{JsObject, JsValue, object}
use chain_indexer_framework.Errors.Classes.{new_block_producer_error}
use chain_indexer_framework.Store.{Outcome, done, failed}
use chain_indexer_framework.Formatter.Types.{Amount, Libraries}
use chain_indexer_framework.Getter.Node.{Node, throws, may_retry}
use chain_indexer_framework.Getter.Base.{
  rpc_error, not_found_error, is_own_error, handle_error, receipt_failed, ask_receipt,
  get_transaction_receipt, ask_block, block_failed, get_block_with_transaction_receipts,
}
use chain_indexer_framework.Getter.Trying.{Gives, retrying-Gives}

-- An error that is an instance of `BlockProducerError`.
abbrev pub IsOwn : JsValue → Type 0
IsOwn e = is_own_error e ≡ true

abbrev pub Anything : {A : Type 0} → A → Type 0
Anything a = Unit

rpc_error-IsOwn :
    (name message : String) (origin : Option String)
    → IsOwn (object (rpc_error name message origin))
unfolding rpc_error new_block_producer_error
rpc_error-IsOwn name message origin = refl

not_found_error-IsOwn : (name message : String) → IsOwn (object (not_found_error name message))
unfolding not_found_error new_block_producer_error
not_found_error-IsOwn name message = refl

retried-IsOwn :
    (wrap : JsValue → JsObject) (e : JsValue) → handle_error wrap e ≡ may_retry → IsOwn e
retried-IsOwn wrap e h = elim (Bool-cases (is_own_error e)) [
  | inl own ↦ own
  | inr other ↦ absurd (ground (arith, h, other))
]

caught-IsOwn :
    (wrap : JsValue → JsObject)
    → ((e : JsValue) → IsOwn (object (wrap e)))
    → (e x : JsValue) → handle_error wrap e ≡ throws x
    → IsOwn x
caught-IsOwn wrap own e x h = elim (Bool-cases (is_own_error e)) [
  | inl o ↦ absurd (ground (arith, h, o))
  | inr other ↦
      let wrapped : object (wrap e) ≡ x = ground (arith, h, other) in subst IsOwn wrapped (own e)
]

module _ (lib : Libraries) (node : Node) (stringify : JsValue → String) (max_retries : ℕ) where
  -- What a `try` block gives: an error in it may be of any class.
  abbrev Tried : (JsValue → JsObject) → {A : Type 0} → Outcome A → Type 0
  Tried wrap = Gives Anything (λ e. handle_error wrap e ≡ may_retry → IsOwn e)

  anything-Tried : (wrap : JsValue → JsObject) {A : Type 0} (o : Outcome A) → Tried wrap o
  anything-Tried wrap (done a) = tt
  anything-Tried wrap (failed e) = retried-IsOwn wrap e

  receipt_failed-IsOwn :
      (hash : String) (e : JsValue)
      → IsOwn (object (receipt_failed lib node stringify max_retries hash e))
  unfolding receipt_failed rpc_error new_block_producer_error
  receipt_failed-IsOwn hash e = refl

  block_failed-IsOwn :
      (block_number : Amount) (e : JsValue)
      → IsOwn (object (block_failed lib node stringify max_retries block_number e))
  unfolding block_failed rpc_error new_block_producer_error
  block_failed-IsOwn block_number e = refl

  -- Whatever the node answers, and however many tries are left: each error that `getTransactionReceipt`
  -- throws is a `BlockProducerError`, and so is each that `getBlockWithTransactionReceipts` of `BlockGetter`
  -- throws, also where a receipt of one of the transactions could not be had.
  pub getter_errors-IsOwn :
      (hash : String) (block_number : Amount) (left : ℕ) (s : node.State)
      → Gives Anything IsOwn (get_transaction_receipt lib node stringify max_retries hash left s).0
        × Gives Anything IsOwn
            (get_block_with_transaction_receipts lib node stringify max_retries block_number left
              s).0
  unfolding get_transaction_receipt get_block_with_transaction_receipts
  getter_errors-IsOwn hash block_number left s =
      let wrap_receipt = receipt_failed lib node stringify max_retries hash in
      let wrap_block = block_failed lib node stringify max_retries block_number in
      (
        retrying-Gives (ask_receipt lib node stringify max_retries hash) (handle_error wrap_receipt)
            Anything IsOwn (caught-IsOwn wrap_receipt (receipt_failed-IsOwn hash))
            (λ left s. anything-Tried wrap_receipt _) left s,
        retrying-Gives (ask_block lib node stringify max_retries block_number)
            (handle_error wrap_block) Anything IsOwn
            (caught-IsOwn wrap_block (block_failed-IsOwn block_number))
            (λ left s. anything-Tried wrap_block _) left s,
      )
