-- ===== src/Getter/Tests.antt =====
-- A node that has no block at first, and concrete runs of the getters against it.
use chain_indexer_framework.Prelude.{
  ℕ, zero, suc, ◌+◌, ◌≤◌, ◌≡◌, refl, sym, ap, String, Bool, true, Option, none, some, ◌++◌, [], ◌∷◌,
  arith,
}
use chain_indexer_framework.Errors.Value.{JsValue, Class, Property}
use chain_indexer_framework.Store.{Outcome, done, failed}
use chain_indexer_framework.Formatter.Types.{number, Web3Block, Web3Receipt, OwnBlock}
use chain_indexer_framework.Formatter.Tests.{sample_libraries, sample_receipt, sample_block}
use chain_indexer_framework.Getter.Node.{Node, retrying}
use chain_indexer_framework.Getter.Base.{
  get_transaction_receipt, get_block_with_transaction_receipts,
}
use chain_indexer_framework.Getter.Erigon.{get_erigon_block}
use chain_indexer_framework.Getter.QuickNode.{get_quicknode_block}
use chain_indexer_framework.Getter.Trying.{Gives}
use chain_indexer_framework.Getter.Failures.{Anything, IsOwn, getter_errors-IsOwn}
use chain_indexer_framework.Getter.Attempts.{CountsBlocks, block_requests_bounded}
use chain_indexer_framework.Getter.Matched.{AnswersByHash, IsWeb3Block, IsRawBlock}
use chain_indexer_framework.Getter.Assembly.{
  FromNode, FromNodeInTime, FromQuickNode, getters-Assembled,
}
use chain_indexer_framework.Prelude.Int.{pos}
use chain_indexer_framework.Subscription.State.{Block}
use chain_indexer_framework.Subscription.Worker.{get_block_from_worker}
use chain_indexer_framework.Getter.Worker.{WorkerMessage, reply_to, receive_all, serve_erigon}
use chain_indexer_framework.Getter.Recovery.{AnswersFrom, IsDone, get_erigon_block-IsDone}
use chain_indexer_framework.Getter.Serving.{by_erigon, promised, get_block_from_worker-Serves}

-- The block is there from the second request on.
abbrev block_at : ℕ → Option Web3Block
block_at zero = none
block_at (suc n) = some sample_block

-- The state counts the requests for a block.
abbrev sample_node : Node
sample_node = record {
  State = ℕ;
  Header = ℕ;
  get_header_in_time = λ n s. (some (done 7), s);
  get_block_number = λ s. (done 7, s);
  get_block = λ n s. (done (block_at s), suc s);
  get_block_in_time = λ n s. (some (done (block_at s)), suc s);
  get_receipt_in_time = λ hash s. (some (done (some (sample_receipt hash))), s);
  send_block_receipts = λ n s. (some (done (some [])), s);
  send_block_with_receipts = λ n s. (none, s);
}

abbrev printed : JsValue → String
printed e = "{}"

abbrev answered_hash : Option (Outcome (Option Web3Receipt)) → String
answered_hash (some (done (some receipt))) = receipt.transaction_hash
answered_hash other = ""

sample_answers : AnswersByHash sample_node
sample_answers = record { own_receipt = λ hash s receipt h. sym (ap answered_hash h) }

abbrev sample_counter : CountsBlocks sample_node
sample_counter = record {
  count = λ s. s;
  block_counts = λ n s. omega arith;
  block_in_time_counts = λ n s. omega arith;
  receipt_keeps = λ h s. refl;
  receipts_keep = λ n s. refl;
}

getter_errors-IsOwn_example :
    Gives Anything IsOwn
      (get_transaction_receipt sample_libraries sample_node printed 1 "0xa" 2 0).0
    × Gives Anything IsOwn
        (get_block_with_transaction_receipts sample_libraries sample_node printed 1
          (number 7)
          2
          0).0
getter_errors-IsOwn_example =
    getter_errors-IsOwn sample_libraries sample_node printed 1 "0xa" (number 7) 2 0

block_requests_bounded_example :
    (sample_counter.count
        (get_block_with_transaction_receipts sample_libraries sample_node printed 1
          (number 7)
          (1 + 1)
          0).1
      ≤ sample_counter.count 0 + (1 + 2))
    × (sample_counter.count
          (get_erigon_block sample_libraries sample_node printed 1 "at" (number 7) 1 0).1
        ≤ sample_counter.count 0 + (1 + 1))
block_requests_bounded_example =
    block_requests_bounded sample_libraries sample_node printed 1 sample_counter "at" (number 7) 0

getters-Assembled_example :
    Gives
      (IsWeb3Block sample_libraries
        (FromNode sample_libraries sample_node printed 1 sample_answers "at" none (number 7)))
      Anything
      (get_block_with_transaction_receipts sample_libraries sample_node printed 1 (number 7) 2 0).0
    × Gives
        (IsWeb3Block sample_libraries (
          FromNodeInTime sample_libraries sample_node printed 1 sample_answers "at" none
            (number 7)))
        Anything
        (get_erigon_block sample_libraries sample_node printed 1 "at" (number 7) 2 0).0
    × Gives
        (IsRawBlock sample_libraries (
          FromQuickNode sample_libraries sample_node printed 1 sample_answers "at" none (number 7)))
        Anything
        (get_quicknode_block sample_libraries sample_node printed 1 "at" none (number 7) 2 0).0
getters-Assembled_example =
    getters-Assembled sample_libraries sample_node printed 1 sample_answers "at" none (number 7) 2 0

abbrev requests : {A : Type 0} → Outcome A × ℕ → Bool × ℕ
requests (done a, s) = (true, s)
requests (failed e, s) = (Bool.false, s)

-- The block that is missing at first is asked for again, by both getters.
asked_twice :
    (requests
        (get_block_with_transaction_receipts sample_libraries sample_node printed 1 (number 7) 2 0)
      ≡ (true, 2))
    × (requests (get_erigon_block sample_libraries sample_node printed 1 "at" (number 7) 1 0)
        ≡ (true, 2))
unfolding get_block_with_transaction_receipts get_erigon_block retrying
    chain_indexer_framework.Getter.Base.not_found_error chain_indexer_framework.Getter.Node.collect
    get_transaction_receipt chain_indexer_framework.Getter.Erigon.send_transaction_receipts_call
    chain_indexer_framework.Formatter.Format.format_raw_receipt
    chain_indexer_framework.Getter.Node.find_receipt
asked_twice = (refl, refl)

abbrev absent_block : Block
absent_block = record { number = pos 0; hash = ""; parent_hash = "" }

-- An error arrives with its message alone.
abbrev cloned : JsValue → JsValue
cloned (JsValue.object o) = JsValue.object (record {
  class = Class.native_error;
  name = Property.missing;
  code = Property.missing;
  is_fatal = Property.missing;
  message = o.message;
  origin = Property.missing;
  stack = Property.missing;
  identifier = Property.missing;
})
cloned other = other

abbrev answer_to : ℕ → WorkerMessage sample_libraries
answer_to call_back_id =
    (serve_erigon sample_libraries sample_node printed cloned 1 "at" 7 call_back_id 1).0

abbrev failed_answer : ℕ → WorkerMessage sample_libraries
failed_answer call_back_id =
    reply_to sample_libraries cloned call_back_id (failed (JsValue.text "closed"))

abbrev given : Outcome (OwnBlock sample_libraries)
given = (get_erigon_block sample_libraries sample_node printed 1 "at" (number 7) 1 1).0

get_block_from_worker-Serves_example :
    (receive_all sample_libraries absent_block
      ((failed_answer 1008 ∷ []) ++ (answer_to 1007 ∷ failed_answer 1007 ∷ []))
      (get_block_from_worker 1007)).settled
    ≡ some (promised sample_libraries sample_node printed cloned 1 "at" none absent_block given)
get_block_from_worker-Serves_example =
    get_block_from_worker-Serves sample_libraries sample_node printed cloned 1 "at" none 7 1007
      absent_block given (answer_to 1007) (failed_answer 1008 ∷ []) (failed_answer 1007 ∷ [])
      (by_erigon 1) (refl, tt)

block_there_from :
    (s : ℕ) → 1 ≤ s → (block : Web3Block) × (some (done (block_at s)) ≡ some (done (some block)))
block_there_from zero h = absurd (omega (arith, h))
block_there_from (suc s) h = (sample_block, refl)

sample_recovers : AnswersFrom sample_node sample_counter 1
sample_recovers = record {
  block_there = λ n s h. block_there_from s h;
  receipts_there = λ n s h. ([], refl);
  receipt_there = λ hash s h. (sample_receipt hash, refl);
}

get_erigon_block-IsDone_example :
    IsDone sample_libraries sample_node printed 1 "at" sample_counter 1 sample_recovers
      (get_erigon_block sample_libraries sample_node printed 1 "at" (number 7) 1 0)
get_erigon_block-IsDone_example =
    get_erigon_block-IsDone sample_libraries sample_node printed 1 "at" sample_counter 1
      sample_recovers (number 7) 1 0 (omega arith)
