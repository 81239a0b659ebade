-- ===== src/Subscription/Filling.antt =====
-- The order of a backfill in internal/block_subscription/block_subscription.ts, whichever worker
-- answers first.
use chain_indexer_framework.Prelude.{
  ℕ, zero, suc, ◌≡◌, ◌⊎◌, refl, ap, subst, ◌∙◌, inl, inr, Bool, false, not, ◌&&◌, ◌||◌, String,
  Option, none, some, List, [], ◌∷◌, ◌++◌, length, arith, Bool-cases, either_way,
}
use chain_indexer_framework.Prelude.Int.{ℤ, pos, ◌+ℤ◌, ltb_ℤ, leb_ℤ, int_laws}
use chain_indexer_framework.Queue.{enqueue, is_empty, get_length, shift}
use chain_indexer_framework.Queue.Refines.{
  Holds, enqueue-Holds, get_length-Holds, is_empty-Holds, shift-Holds,
}
use chain_indexer_framework.Subscription.State.{
  Block, WorkerResult, given, Action, backfills, Subscription, logged,
}
use chain_indexer_framework.Subscription.Live.{request}
use chain_indexer_framework.Subscription.BackFill.{
  back_fill_loop, is_active, hand_on, on_filled, next_job,
}

-- `k` numbers from `n` on.
abbrev pub span : ℤ → ℕ → List ℤ
span n zero = []
span n (suc k) = n ∷ span (n +ℤ pos 1) k

pub span-snoc : (n m : ℤ) (k : ℕ) → m ≡ n +ℤ pos k → span n k ++ m ∷ [] ≡ span n (suc k)
span-snoc n m zero e = ap (λ i. i ∷ []) (e ∙ plus_zero)
  where
    plus_zero : n +ℤ pos 0 ≡ n
    plus_zero = omega int_laws
span-snoc n m (suc k) e = ap (◌∷◌ n) (span-snoc (n +ℤ pos 1) m k (e ∙ moved))
  where
    moved : n +ℤ pos (suc k) ≡ n +ℤ pos 1 +ℤ pos k
    moved = omega int_laws

-- The promise that is awaited is of the next block, and those that wait are of the blocks behind it.
pub record IsFilling (s : Subscription) : Type 0 where
  pub ahead : ℕ
  pub awaits : s.back_fill_awaited ≡ some s.next_block
  pub holds : Holds s.queue (span (s.next_block +ℤ pos 1) ahead)

abbrev pub Course : Subscription → Type 0
Course s = IsFilling s ⊎ (s.back_fill_awaited ≡ none)

pub data Event : Type 0 where
  fills : WorkerResult → Event
  finishes_job : (id : ℕ) → Event

abbrev pub on_event : (trace : String) → Event → Subscription → Subscription
on_event trace (fills result) s = on_filled trace result s
on_event trace (finishes_job id) s = next_job id s

abbrev pub is_over : Subscription → Bool
is_over s = not (is_active s.active_back_filling_id s.back_filling_id) || s.fatal_error

abbrev pub run : (trace : String) → List Event → Subscription → Subscription
run trace [] s = s
run trace (e ∷ es) s = run trace es (on_event trace e s)

abbrev add_back_filled : Action → List Block → List Block
add_back_filled (backfills block) blocks = blocks ++ block ∷ []
add_back_filled other blocks = blocks

-- The blocks that backfills have handed to the observer, oldest first.
abbrev pub back_filled : List Action → List Block
back_filled [] = []
back_filled (a ∷ log) = add_back_filled a (back_filled log)

abbrev pub IsAnswer : (answer : ℤ → Block) → Option ℤ → WorkerResult → Type 0
IsAnswer answer none result = Unit
IsAnswer answer (some n) result = given result.error ≡ none → result.block ≡ answer n

-- Each awaited promise that settles without an error gives the block that `answer` has under the number
-- that was requested.
abbrev pub AreAnswers : (answer : ℤ → Block) (trace : String) → List Event → Subscription → Type 0
AreAnswers answer trace [] s = Unit
AreAnswers answer trace (fills result ∷ es) s =
    IsAnswer answer s.back_fill_awaited result
    × AreAnswers answer trace es (on_event trace (fills result) s)
AreAnswers answer trace (finishes_job id ∷ es) s =
    AreAnswers answer trace es (on_event trace (finishes_job id) s)

pub back_fill_loop-Course :
    (k : ℕ) (s : Subscription) → Holds s.queue (span s.next_block k) → Course (back_fill_loop s)
unfolding back_fill_loop
back_fill_loop-Course k s h =
    elim (Bool-cases (leb_ℤ s.next_block s.last_finalized_block && not (is_empty s.queue))) [
      | inl more ↦ rw more (next_round k h (ground (arith, more)))
      | inr over ↦ rw over (inr refl)
    ]
  where
    next_round :
        (k : ℕ)
        → Holds s.queue (span s.next_block k)
        → is_empty s.queue ≡ false
        → Course (record s { back_fill_awaited = (shift s.queue).0; queue = (shift s.queue).1 })
    next_round zero h e = absurd (ground (arith, e, is_empty-Holds [] h))
    next_round (suc k) h e =
        let (first, rest) = shift-Holds (span s.next_block (suc k)) h in
        inl (record { ahead = k; awaits = first; holds = rest })

pub length-span : (n : ℤ) (k : ℕ) → length (span n k) ≡ k
length-span n zero = refl
length-span n (suc k) = ap suc (length-span (n +ℤ pos 1) k)

next_number : (n : ℤ) (k l : ℕ) → l ≡ k → n +ℤ pos l +ℤ pos 1 ≡ n +ℤ pos 1 +ℤ pos k
next_number n k l e = omega (int_laws, e)

request-Course :
    (s : Subscription)
    → Course s
    → Course (request (s.next_block +ℤ pos (get_length s.queue) +ℤ pos 1) s)
request-Course s (inl f) =
    let n = s.next_block in
    let x = n +ℤ pos (get_length s.queue) +ℤ pos 1 in
    let counted = get_length-Holds f.holds ∙ length-span (n +ℤ pos 1) f.ahead in
    inl (record {
      ahead = suc f.ahead;
      awaits = f.awaits;
      holds =
          subst (Holds (enqueue x s.queue))
            (span-snoc (n +ℤ pos 1) x f.ahead (next_number n f.ahead _ counted))
            (enqueue-Holds x f.holds);
    })
request-Course s (inr over) = inr over

pub next_job-Course : (id : ℕ) (s : Subscription) → Course s → Course (next_job id s)
unfolding next_job
next_job-Course id s c =
    elim (Bool-cases (
      is_active s.active_back_filling_id id
      && ltb_ℤ (s.next_block +ℤ pos (get_length s.queue)) s.last_finalized_block)) [
        | inl more ↦ rw more (request-Course s c)
        | inr full ↦ rw full c
      ]

pub next_job_stays : (id : ℕ) (s : Subscription) → (next_job id s).next_block ≡ s.next_block
unfolding next_job
next_job_stays id s = ground arith

pub hand_on-Course :
    (block : Block) (s : Subscription) → IsFilling s → is_over s ≡ false → Course (hand_on block s)
unfolding hand_on
hand_on-Course block s f over = rw over (
    back_fill_loop-Course f.ahead
      (logged (backfills block) (record s { next_block = s.next_block +ℤ pos 1 })) f.holds)

pub back_fill_loop_hands_none :
    (s : Subscription) → back_filled (back_fill_loop s).log ≡ back_filled s.log
unfolding back_fill_loop
back_fill_loop_hands_none s =
    either_way (λ (r : Subscription). back_filled r.log ≡ back_filled s.log)
      (leb_ℤ s.next_block s.last_finalized_block && not (is_empty s.queue)) _ _ (λ more. refl)
      (λ over. refl)

pub next_job_hands_none :
    (id : ℕ) (s : Subscription) → back_filled (next_job id s).log ≡ back_filled s.log
unfolding next_job
next_job_hands_none id s =
    either_way (λ (r : Subscription). back_filled r.log ≡ back_filled s.log)
      (is_active s.active_back_filling_id id
        && ltb_ℤ (s.next_block +ℤ pos (get_length s.queue)) s.last_finalized_block)
      _ _ (λ more. refl) (λ full. refl)

pub back_fill_loop_stays : (s : Subscription) → (back_fill_loop s).next_block ≡ s.next_block
unfolding back_fill_loop
back_fill_loop_stays s = ground arith

pub hand_on_moves :
    (block : Block) (s : Subscription)
    → is_over s ≡ false
    → (hand_on block s).next_block ≡ s.next_block +ℤ pos 1
unfolding hand_on
hand_on_moves block s over = rw over (
    back_fill_loop_stays
      (logged (backfills block) (record s { next_block = s.next_block +ℤ pos 1 })))

pub hand_on_hands :
    (block : Block) (s : Subscription)
    → is_over s ≡ false
    → back_filled (hand_on block s).log ≡ back_filled s.log ++ block ∷ []
unfolding hand_on
hand_on_hands block s over = rw over (
    back_fill_loop_hands_none
      (logged (backfills block) (record s { next_block = s.next_block +ℤ pos 1 })))
