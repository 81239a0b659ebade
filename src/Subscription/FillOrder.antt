-- ===== src/Subscription/FillOrder.antt =====
-- The blocks that a backfill in internal/block_subscription/block_subscription.ts hands on,
-- whatever the order in which jobs and promises settle.
use chain_indexer_framework.Prelude.{
  ℕ, zero, suc, ◌+◌, ◌≡◌, refl, sym, ap, subst, ◌∙◌, inl, inr, String, Option, none, some, map,
  List, [], ◌∷◌, ◌++◌, arith, Bool-cases, append-nil, append_assoc,
}
use chain_indexer_framework.Prelude.Int.{ℤ, pos, ◌+ℤ◌, int_laws}
use chain_indexer_framework.Errors.Value.{JsValue}
use chain_indexer_framework.Queue.{enqueue}
use chain_indexer_framework.Queue.Refines.{Holds, enqueue-Holds}
use chain_indexer_framework.Subscription.State.{Block, WorkerResult, given, Subscription}
use chain_indexer_framework.Subscription.Live.{request}
use chain_indexer_framework.Subscription.BackFill.{
  add_jobs, back_fill_blocks, fail_back_fill, hand_on, take_filled, settle_filled, on_filled,
}
use chain_indexer_framework.Subscription.Filling.{
  span, span-snoc, IsFilling, Course, Event, fills, finishes_job, on_event, is_over, run,
  back_filled, IsAnswer, AreAnswers, back_fill_loop-Course, next_job-Course, hand_on-Course,
  next_job_stays, back_fill_loop_stays, hand_on_moves, hand_on_hands, next_job_hands_none,
  back_fill_loop_hands_none,
}

-- What a backfill hands on between two states, by the answers of the workers: the blocks of `k` numbers
-- from `nextBlock` on, in order, and `nextBlock` goes on by as many.
pub record Fills (answer : ℤ → Block) (s s' : Subscription) : Type 0 where
  pub count : ℕ
  pub handed : back_filled s'.log ≡ back_filled s.log ++ map answer (span s.next_block count)
  pub moved : s'.next_block ≡ s.next_block +ℤ pos count

-- What an event hands on.
data Advances (answer : ℤ → Block) (s s' : Subscription) : Type 0 where
  stays :
      back_filled s'.log ≡ back_filled s.log
      → s'.next_block ≡ s.next_block
      → Course s'
      → Advances answer s s'
  passes :
      back_filled s'.log ≡ back_filled s.log ++ answer s.next_block ∷ []
      → s'.next_block ≡ s.next_block +ℤ pos 1
      → Course s'
      → Advances answer s s'

stay-Fills :
    {answer : ℤ → Block} {s s' s'' : Subscription}
    → back_filled s'.log ≡ back_filled s.log
    → s'.next_block ≡ s.next_block
    → Fills answer s' s''
    → Fills answer s s''
stay-Fills {answer} {s} {s'} same stay f = record {
  count = f.count;
  handed =
      f.handed
      ∙ ap (λ l. l ++ map answer (span s'.next_block f.count)) same
      ∙ ap (λ n. back_filled s.log ++ map answer (span n f.count)) stay;
  moved = f.moved ∙ ap (λ n. n +ℤ pos f.count) stay;
}

one_further : (n m l : ℤ) (k : ℕ) → m ≡ n +ℤ pos 1 → l ≡ m +ℤ pos k → l ≡ n +ℤ pos (suc k)
one_further n m l k e f = f ∙ ap (λ x. x +ℤ pos k) e ∙ sums
  where
    sums : n +ℤ pos 1 +ℤ pos k ≡ n +ℤ pos (suc k)
    sums = omega int_laws

pass-Fills :
    {answer : ℤ → Block} {s s' s'' : Subscription}
    → back_filled s'.log ≡ back_filled s.log ++ answer s.next_block ∷ []
    → s'.next_block ≡ s.next_block +ℤ pos 1
    → Fills answer s' s''
    → Fills answer s s''
pass-Fills {answer} {s} {s'} one next f = record {
  count = suc f.count;
  handed =
      f.handed
      ∙ ap (λ l. l ++ map answer (span s'.next_block f.count)) one
      ∙ append_assoc (back_filled s.log) (answer s.next_block ∷ [])
          (map answer (span s'.next_block f.count))
      ∙ ap (λ n. back_filled s.log ++ answer s.next_block ∷ map answer (span n f.count)) next;
  moved = one_further s.next_block s'.next_block _ f.count next f.moved;
}

advance-Fills :
    {answer : ℤ → Block} {s s' s'' : Subscription}
    → Advances answer s s'
    → Fills answer s' s''
    → Fills answer s s''
advance-Fills (stays same stay c) f = stay-Fills same stay f
advance-Fills (passes one next c) f = pass-Fills one next f

Advances-Course : {answer : ℤ → Block} {s s' : Subscription} → Advances answer s s' → Course s'
Advances-Course (stays n e c) = c
Advances-Course (passes n e c) = c

hand_on-Advances :
    (answer : ℤ → Block) (block : Block) (s : Subscription)
    → block ≡ answer s.next_block
    → IsFilling s
    → Advances answer s (hand_on block s)
unfolding hand_on
hand_on-Advances answer block s e f = elim (Bool-cases (is_over s)) [
  | inl over ↦ rw over (stays refl refl (inr refl))
  | inr on ↦
      passes (hand_on_hands block s on ∙ ap (λ b. back_filled s.log ++ b ∷ []) e)
        (hand_on_moves block s on) (hand_on-Course block s f on)
]

module _ (answer : ℤ → Block) (trace : String) where
  take_filled-Advances :
      (block : Block) (e : Option JsValue) (s : Subscription)
      → (e ≡ none → block ≡ answer s.next_block)
      → IsFilling s
      → Advances answer s (take_filled trace block e s)
  unfolding fail_back_fill
  take_filled-Advances block (some e) s right f = stays refl refl (inr refl)
  take_filled-Advances block none s right f = hand_on-Advances answer block s (right refl) f

  settle_filled-Advances :
      (a : Option ℤ) (result : WorkerResult) (s : Subscription)
      → s.back_fill_awaited ≡ a
      → IsAnswer answer a result
      → Course s
      → Advances answer s (settle_filled trace a result s)
  settle_filled-Advances none result s h right c = stays refl refl c
  settle_filled-Advances (some n) result s h right (inr w) = absurd (ground (arith, h, w))
  settle_filled-Advances (some n) result s h right (inl f) =
      let same : n ≡ s.next_block = ground (arith, h, f.awaits) in
      take_filled-Advances result.block (given result.error) s (λ ok. right ok ∙ ap answer same) f

  run-Fills :
      (es : List Event) (s : Subscription)
      → AreAnswers answer trace es s
      → Course s
      → Fills answer s (run trace es s)
  unfolding on_filled
  run-Fills [] s right c = record {
    count = 0;
    handed = sym (append-nil (back_filled s.log));
    moved = omega int_laws;
  }
  run-Fills (finishes_job id ∷ es) s right c =
      stay-Fills (next_job_hands_none id s) (next_job_stays id s)
        (run-Fills es (on_event trace (finishes_job id) s) right (next_job-Course id s c))
  run-Fills (fills result ∷ es) s right c =
      let step = settle_filled-Advances s.back_fill_awaited result s refl right.0 c in
      advance-Fills step
        (run-Fills es (on_event trace (fills result) s) right.1 (Advances-Course step))

add_jobs-Holds :
    (k i : ℕ) (s : Subscription)
    → Holds s.queue (span s.next_block i)
    → Holds (add_jobs k i s).queue (span s.next_block (i + k))
unfolding add_jobs
add_jobs-Holds zero i s h = subst (λ j. Holds s.queue (span s.next_block j)) (omega arith) h
add_jobs-Holds (suc k) i s h =
    let x = s.next_block +ℤ pos i in
    let next =
      add_jobs-Holds k (suc i) (request x s)
        (subst (Holds (enqueue x s.queue)) (span-snoc s.next_block x i refl) (enqueue-Holds x h)) in
    subst (λ j. Holds (add_jobs k (suc i) (request x s)).queue (span s.next_block j)) (omega arith)
      next

add_jobs_stays : (k i : ℕ) (s : Subscription) → (add_jobs k i s).next_block ≡ s.next_block
unfolding add_jobs
add_jobs_stays zero i s = refl
add_jobs_stays (suc k) i s = add_jobs_stays k (suc i) (request (s.next_block +ℤ pos i) s)

add_jobs_hands_none :
    (k i : ℕ) (s : Subscription) → back_filled (add_jobs k i s).log ≡ back_filled s.log
unfolding add_jobs
add_jobs_hands_none zero i s = refl
add_jobs_hands_none (suc k) i s = add_jobs_hands_none k (suc i) (request (s.next_block +ℤ pos i) s)

back_fill_blocks_begins :
    (now workers : ℕ) (s : Subscription)
    → Holds s.queue []
    → Course (back_fill_blocks now workers s)
      × ((back_fill_blocks now workers s).next_block ≡ s.next_block)
      × (back_filled (back_fill_blocks now workers s).log ≡ back_filled s.log)
unfolding back_fill_blocks
back_fill_blocks_begins now workers s h =
    let begun : Subscription = record s {
      active_back_filling_id = some now;
      back_filling_id = now;
    } in
    let jobs = add_jobs workers 0 begun in
    let same = add_jobs_stays workers 0 begun in
    let held =
      subst (λ n. Holds jobs.queue (span n workers)) (sym same)
        (subst (λ k. Holds jobs.queue (span s.next_block k)) (omega arith)
          (add_jobs-Holds workers 0 begun h)) in
    (
      back_fill_loop-Course workers jobs held,
      back_fill_loop_stays jobs ∙ same,
      back_fill_loop_hands_none jobs ∙ add_jobs_hands_none workers 0 begun,
    )

-- Let a backfill begin with an empty queue, and let each promise that it awaits and that settles without
-- an error give the block under the requested number. However the jobs and the promises settle, with any
-- number of workers, the observer is handed exactly the blocks under `nextBlock` and the numbers after
-- it, as many as `nextBlock` has gone on by, one after the other: none is left out, none comes twice.
pub back_fill_blocks-IsInOrder :
    (answer : ℤ → Block) (trace : String) (now workers : ℕ) (es : List Event) (s : Subscription)
    → Holds s.queue []
    → AreAnswers answer trace es (back_fill_blocks now workers s)
    → Fills answer s (run trace es (back_fill_blocks now workers s))
back_fill_blocks-IsInOrder answer trace now workers es s h right =
    let (c, same, kept) = back_fill_blocks_begins now workers s h in
    stay-Fills kept same (run-Fills answer trace es (back_fill_blocks now workers s) right c)
