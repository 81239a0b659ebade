-- ===== src/Getter/Node.antt =====
-- What the getters of internal/block_getters share: the node behind web3, which is an argument, the way
-- a `catch` decides to try again, and the loop over the transactions of a block.
use chain_indexer_framework.Prelude.{
  ℕ, zero, suc, String, Option, none, some, List, [], ◌∷◌, if◌then◌else◌,
}
use chain_indexer_framework.Prelude.Text.{str_eq}
use chain_indexer_framework.Errors.Value.{JsValue}
use chain_indexer_framework.Store.{Outcome, done, failed}
use chain_indexer_framework.Formatter.Types.{Amount, RawReceipt, RawBlock, Web3Block, Web3Receipt}

-- `IQuickNodeResponse`
pub record QuickNodeResponse : Type 0 where
  pub block : RawBlock
  pub receipts : List RawReceipt

-- The calls of web3 that the getters make, in a state of the node and the connection. A call in a race
-- with a timer gives `none` when it is late; `null` and a missing result are `none` inside.
pub record Node : Type 1 where
  pub State : Type 0
  -- A block whose transactions are hashes only.
  pub Header : Type 0
  pub get_header_in_time : Amount → State → Option (Outcome Header) × State
  pub get_block_number : State → Outcome ℕ × State
  pub get_block : Amount → State → Outcome (Option Web3Block) × State
  pub get_block_in_time : Amount → State → Option (Outcome (Option Web3Block)) × State
  pub get_receipt_in_time : String → State → Option (Outcome (Option Web3Receipt)) × State
  -- "eth_getBlockReceipts" and "qn_getBlockWithReceipts", with the callback's two arguments.
  pub send_block_receipts : Amount → State → Option (Outcome (Option (List RawReceipt))) × State
  pub send_block_with_receipts :
      Amount → State → Option (Outcome (Option QuickNodeResponse)) × State

-- What a `catch` does with an error: throw an error, or try again while tries are left.
pub data Handling : Type 0 where
  throws : JsValue → Handling
  may_retry : Handling

module _ {S A : Type 0} (body : ℕ → S → Outcome A × S) (handle : JsValue → Handling) where
  abbrev pub settle_error : Handling → Outcome A × S → S → Outcome A × S
  settle_error (throws x) again s = (failed x, s)
  settle_error may_retry again s = again

  abbrev pub after_try : Outcome A → (JsValue → Outcome A × S) → S → Outcome A × S
  after_try (done a) again s = (done a, s)
  after_try (failed e) again s = settle_error (handle e) (again e) s

  -- A `try` whose `catch` calls the method again. The block `body` is told how many tries are left after
  -- it; without one left the error itself is thrown.
  unfoldable pub retrying : (left : ℕ) → S → Outcome A × S
  retrying zero s = let (o, s') = body zero s in after_try o (λ e. (failed e, s')) s'
  retrying (suc left) s = let (o, s') = body (suc left) s in after_try o (λ e. retrying left s') s'

abbrev pub and_then : {A B S : Type 0} → Outcome A × S → (A → S → Outcome B × S) → Outcome B × S
and_then (done a, s) f = f a s
and_then (failed e, s) f = (failed e, s)

-- The `for` loop over the transactions, which awaits each one.
unfoldable pub collect :
    {S T B : Type 0} → (T → S → Outcome B × S) → List T → S → Outcome (List B) × S
collect f [] s = (done [], s)
collect f (t ∷ ts) s =
    and_then (f t s) (λ b s'. and_then (collect f ts s') (λ bs s''. (done (b ∷ bs), s'')))

-- `receipts.find((receipt) => receipt.transactionHash === hash)`
unfoldable pub find_receipt : String → List RawReceipt → Option RawReceipt
find_receipt hash [] = none
find_receipt hash (receipt ∷ receipts) =
    if str_eq receipt.base.transaction_hash hash then some receipt else find_receipt hash receipts
