-- ===== src/Subscription/Keeping.antt =====
-- The blocks that `processQueue` in internal/block_subscription/abstract_block_subscription.ts has
-- handed to the observer, and the steps that hand none on.
use chain_indexer_framework.Prelude.{
  ℕ, zero, suc, ◌||◌, ◌≡◌, ◌⊎◌, refl, sym, ap, subst, ◌∙◌, inl, inr, String, Option, none, some,
  List, [], ◌∷◌, arith, Bool-cases,
}
use chain_indexer_framework.Prelude.Int.{ℤ, pos, ◌+ℤ◌, ◌-ℤ◌, ltb_ℤ, ◌≤ℤ◌, pos_part}
use chain_indexer_framework.Prelude.Text.{str_eq}
use chain_indexer_framework.Errors.Value.{JsValue}
use chain_indexer_framework.Store.{Outcome, done, failed}
use chain_indexer_framework.Subscription.State.{
  Block, LogNumber, finite, not_finite, not_a_number, WorkerResult, given, Action, emits,
  Subscription,
}
use chain_indexer_framework.Subscription.Live.{
  request, enqueue_rounds, enqueue_missed_blocks, queue_loop, process_queue, has_missed_blocks,
  fail_block, hashed_log, good_log, accept_log, with_missed, process_unless_busy, bad_hash,
  unsubscribe,
}
use chain_indexer_framework.Subscription.BackFill.{
  back_fill_loop, back_fill_blocks, add_jobs, fail_back_fill, hand_on, take_filled, settle_filled,
  next_job,
}

abbrev pub add_emitted : Action → List Block → List Block
add_emitted (emits b) bs = b ∷ bs
add_emitted other bs = bs

-- The blocks that `processQueue` handed on, newest first.
abbrev pub emitted : List Action → List Block
emitted [] = []
emitted (a ∷ log) = add_emitted a (emitted log)

-- A block that follows another one is not higher, or is its child.
abbrev pub Follows : Block → Block → Type 0
Follows block last = (block.number ≤ℤ last.number) ⊎ (last.hash ≡ block.parent_hash)

abbrev pub IsChain : List Block → Type 0
IsChain [] = Unit
IsChain (b ∷ []) = Unit
IsChain (b ∷ (a ∷ rest)) = Follows b a × IsChain (a ∷ rest)

abbrev pub newest : List Block → Option Block
newest [] = none
newest (b ∷ rest) = some b

-- The emitted blocks are a chain, the newest of which is `lastEmittedBlock`.
pub record IsLinked (s : Subscription) : Type 0 where
  pub chain : IsChain (emitted s.log)
  pub last : s.last_emitted_block ≡ newest (emitted s.log)

-- A step that emits nothing.
pub record Keeps (s s' : Subscription) : Type 0 where
  pub kept : emitted s'.log ≡ emitted s.log
  pub same_last : s'.last_emitted_block ≡ s.last_emitted_block

pub Keeps-IsLinked : {s s' : Subscription} → Keeps s s' → IsLinked s → IsLinked s'
Keeps-IsLinked k h = record {
  chain = subst IsChain (sym k.kept) h.chain;
  last = k.same_last ∙ h.last ∙ sym (ap newest k.kept);
}

Keeps-trans : {a b c : Subscription} → Keeps a b → Keeps b c → Keeps a c
Keeps-trans f g = record { kept = g.kept ∙ f.kept; same_last = g.same_last ∙ f.same_last }

enqueue_rounds-Keeps : (k i : ℕ) (s : Subscription) → Keeps s (enqueue_rounds k i s)
unfolding enqueue_rounds
enqueue_rounds-Keeps zero i s = record { kept = refl; same_last = refl }
enqueue_rounds-Keeps (suc k) i s =
    Keeps-trans (record { kept = refl; same_last = refl })
      (enqueue_rounds-Keeps k (suc i) (request (s.last_received_block_number +ℤ pos i) s))

add_jobs-Keeps : (k i : ℕ) (s : Subscription) → Keeps s (add_jobs k i s)
unfolding add_jobs
add_jobs-Keeps zero i s = record { kept = refl; same_last = refl }
add_jobs-Keeps (suc k) i s =
    Keeps-trans (record { kept = refl; same_last = refl })
      (add_jobs-Keeps k (suc i) (request (s.next_block +ℤ pos i) s))

with_missed-Keeps : (n : ℤ) (s : Subscription) → Keeps s (with_missed n s)
unfolding enqueue_missed_blocks
with_missed-Keeps n s = elim (Bool-cases (has_missed_blocks n s)) [
  | inl m ↦ rw m (enqueue_rounds-Keeps (pos_part (n -ℤ s.last_received_block_number -ℤ pos 1)) 1 s)
  | inr m ↦ rw m (record { kept = refl; same_last = refl })
]

process_unless_busy-Keeps : (s : Subscription) → Keeps s (process_unless_busy s)
unfolding process_queue queue_loop
process_unless_busy-Keeps s = record { kept = ground arith; same_last = ground arith }

accept_log-Keeps : (h : String) (n : ℤ) (s : Subscription) → Keeps s (accept_log h n s)
unfolding accept_log
accept_log-Keeps h n s =
    let received : Subscription =
      request n
        (record (with_missed n s) { last_block_hash = h; last_received_block_number = n }) in
    let k = with_missed-Keeps n s in
    let first : Keeps s received = record { kept = k.kept; same_last = k.same_last } in
    Keeps-trans first (process_unless_busy-Keeps received)

good_log-Keeps : (h : String) (n : ℤ) (s : Subscription) → Keeps s (good_log h n s)
good_log-Keeps h n s = elim (Bool-cases (bad_hash h || ltb_ℤ n s.last_received_block_number)) [
  | inl bad ↦ rw bad (record { kept = refl; same_last = refl })
  | inr good ↦ elim (Bool-cases (str_eq s.last_block_hash h)) [
    | inl same ↦ rw (good, same) (record { kept = refl; same_last = refl })
    | inr new ↦ rw (good, new) (accept_log-Keeps h n s)
  ]
]

pub hashed_log-Keeps :
    (h : Option String) (number : LogNumber) (s : Subscription) → Keeps s (hashed_log h number s)
hashed_log-Keeps none number s = record { kept = refl; same_last = refl }
hashed_log-Keeps (some h) (finite n) s = good_log-Keeps h n s
hashed_log-Keeps (some h) not_finite s = record { kept = refl; same_last = refl }
hashed_log-Keeps (some h) not_a_number s = record { kept = refl; same_last = refl }

pub fail_block-Keeps :
    (trace : String) (e : JsValue) (s : Subscription) → Keeps s (fail_block trace e s)
unfolding fail_block
fail_block-Keeps trace e s = record { kept = refl; same_last = refl }

pub queue_loop-Keeps : (s : Subscription) → Keeps s (queue_loop s)
unfolding queue_loop
queue_loop-Keeps s = record { kept = ground arith; same_last = ground arith }

back_fill_loop-Keeps : (s : Subscription) → Keeps s (back_fill_loop s)
unfolding back_fill_loop
back_fill_loop-Keeps s = record { kept = ground arith; same_last = ground arith }

hand_on-Keeps : (block : Block) (s : Subscription) → Keeps s (hand_on block s)
unfolding hand_on back_fill_loop
hand_on-Keeps block s = record { kept = ground arith; same_last = ground arith }

take_filled-Keeps :
    (trace : String) (block : Block) (e : Option JsValue) (s : Subscription)
    → Keeps s (take_filled trace block e s)
unfolding fail_back_fill
take_filled-Keeps trace block none s = hand_on-Keeps block s
take_filled-Keeps trace block (some e) s = record { kept = refl; same_last = refl }

pub settle_filled-Keeps :
    (trace : String) (a : Option ℤ) (result : WorkerResult) (s : Subscription)
    → Keeps s (settle_filled trace a result s)
settle_filled-Keeps trace none result s = record { kept = refl; same_last = refl }
settle_filled-Keeps trace (some n) result s =
    take_filled-Keeps trace result.block (given result.error) s

pub back_fill_blocks-Keeps :
    (now workers : ℕ) (s : Subscription) → Keeps s (back_fill_blocks now workers s)
unfolding back_fill_blocks
back_fill_blocks-Keeps now workers s =
    let begun : Subscription = record s {
      active_back_filling_id = some now;
      back_filling_id = now;
    } in
    let first : Keeps s begun = record { kept = refl; same_last = refl } in
    Keeps-trans first (
      Keeps-trans (add_jobs-Keeps workers 0 begun)
        (back_fill_loop-Keeps (add_jobs workers 0 begun)))

pub next_job-Keeps : (id : ℕ) (s : Subscription) → Keeps s (next_job id s)
unfolding next_job
next_job-Keeps id s = record { kept = ground arith; same_last = ground arith }

pub unsubscribe-Keeps :
    (trace : String) (answer : Outcome (Unit {0})) (s : Subscription)
    → Keeps s (unsubscribe trace answer s).0
unfolding unsubscribe
unsubscribe-Keeps trace (done u) s = record { kept = ground arith; same_last = ground arith }
unsubscribe-Keeps trace (failed e) s = record { kept = ground arith; same_last = ground arith }
