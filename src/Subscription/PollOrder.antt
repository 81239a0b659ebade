-- ===== src/Subscription/PollOrder.antt =====
-- The order of the blocks that a run of internal/block_subscription/block_polling.ts hands on.
use chain_indexer_framework.Prelude.{
  ℕ, ◌≡◌, refl, sym, ap, ◌∙◌, inl, inr, ◌&&◌, String, some, List, [], ◌∷◌, ◌++◌, length, Bool-cases,
  suc,
}
use chain_indexer_framework.Prelude.Int.{ℤ, pos, ◌+ℤ◌, ◌-ℤ◌, leb_ℤ, int_laws}
use chain_indexer_framework.Errors.Value.{JsValue}
use chain_indexer_framework.Store.{Outcome, done, failed}
use chain_indexer_framework.Subscription.State.{Block}
use chain_indexer_framework.Subscription.Filling.{span, span-snoc, length-span}
use chain_indexer_framework.Subscription.Polling.{
  Awaited, nothing, latest_number, timer, block_of, Call, hands, reports, Poller, is_current,
  while_head, for_head, start_polling, fail, on_latest, hand, Event, answers, wakes, polls, sets,
  resume, run,
}

abbrev pub add_handed : Call → List ℤ → List ℤ
add_handed (hands n b) ns = ns ++ n ∷ []
add_handed (reports e) ns = ns

-- The numbers of the blocks that were handed to the observer, oldest first.
abbrev pub handed : List Call → List ℤ
handed [] = []
handed (c ∷ log) = add_handed c (handed log)

-- The blocks handed on go from the start to `lastBlockNumber`.
record IsCounted (start : ℤ) (p : Poller) : Type 0 where
  count : ℕ
  numbers : handed p.log ≡ span start count
  last : p.last_block_number +ℤ pos 1 ≡ start +ℤ pos count

-- A block is asked for when it is next.
abbrev Awaits : Awaited → ℤ → Type 0
Awaits (block_of number latest) last = number ≡ last +ℤ pos 1
Awaits a last = Unit

abbrev IsInStep : ℤ → Poller → Type 0
IsInStep start p = IsCounted start p × Awaits p.awaited p.last_block_number

module _ (start : ℤ) where
  awaiting :
      (a : Awaited) (p : Poller)
      → IsCounted start p
      → Awaits a p.last_block_number
      → IsInStep start (record p { awaited = a })
  awaiting a p c w = (record { count = c.count; numbers = c.numbers; last = c.last }, w)

  while_head-IsInStep : (p : Poller) → IsCounted start p → IsInStep start (while_head p)
  unfolding while_head
  while_head-IsInStep p c = elim (Bool-cases (is_current p)) [
    | inl y ↦ rw y (awaiting latest_number p c tt)
    | inr n ↦ rw n (awaiting nothing p c tt)
  ]

  for_head-IsInStep :
      (number latest : ℤ) (p : Poller)
      → number ≡ p.last_block_number +ℤ pos 1
      → IsCounted start p
      → IsInStep start (for_head number latest p)
  unfolding for_head
  for_head-IsInStep number latest p e c = elim (Bool-cases (leb_ℤ number latest && is_current p)) [
    | inl y ↦ rw y (awaiting (block_of number latest) p c e)
    | inr n ↦ rw n (while_head-IsInStep p c)
  ]

  one_more : (n : ℤ) (k : ℕ) → n ≡ start +ℤ pos k → n +ℤ pos 1 ≡ start +ℤ pos (suc k)
  one_more n k e = ap (λ i. i +ℤ pos 1) e ∙ shifted
    where
      shifted : start +ℤ pos k +ℤ pos 1 ≡ start +ℤ pos (suc k)
      shifted = omega int_laws

  handed_one :
      (number : ℤ) (block : Block) (p : Poller)
      → number ≡ p.last_block_number +ℤ pos 1
      → IsCounted start p
      → IsCounted start (record p { last_block_number = number; log = hands number block ∷ p.log })
  handed_one number block p e c = record {
    count = suc c.count;
    numbers = ap (λ ns. ns ++ number ∷ []) c.numbers ∙ span-snoc start number c.count (e ∙ c.last);
    last = one_more number c.count (e ∙ c.last);
  }

  hand-IsInStep :
      (number latest : ℤ) (block : Block) (p : Poller)
      → number ≡ p.last_block_number +ℤ pos 1
      → IsCounted start p
      → IsInStep start (hand number latest block p)
  unfolding hand
  hand-IsInStep number latest block p e c = elim (Bool-cases (is_current p)) [
    | inl y ↦ rw y (
        for_head-IsInStep (number +ℤ pos 1) latest
          (record p { last_block_number = number; log = hands number block ∷ p.log }) refl
          (handed_one number block p e c))
    | inr n ↦ rw n (while_head-IsInStep p c)
  ]

  fail-IsInStep :
      (trace : String) (e : JsValue) (p : Poller)
      → IsCounted start p
      → IsInStep start (fail trace e p)
  fail-IsInStep trace e p c = (record { count = c.count; numbers = c.numbers; last = c.last }, tt)

  on_latest-IsInStep :
      (trace : String) (o : Outcome ℤ) (p : Poller)
      → IsCounted start p
      → IsInStep start (on_latest trace o p)
  unfolding on_latest
  on_latest-IsInStep trace (failed e) p c = fail-IsInStep trace e p c
  on_latest-IsInStep trace (done latest) p c =
      elim (Bool-cases (leb_ℤ latest p.last_block_number)) [
        | inl y ↦ rw y (awaiting (timer latest) p c tt)
        | inr n ↦ rw n (for_head-IsInStep (p.last_block_number +ℤ pos 1) latest p refl c)
      ]

  resume-IsInStep :
      (trace : String) (e : Event) (a : Awaited) (p : Poller)
      → IsCounted start p
      → Awaits p.awaited p.last_block_number
      → Awaits a p.last_block_number
      → IsInStep start (resume trace e a p)
  resume-IsInStep trace (answers o) latest_number p c w v = on_latest-IsInStep trace o p c
  resume-IsInStep trace (answers o) nothing p c w v = (c, w)
  resume-IsInStep trace (answers o) (timer latest) p c w v = (c, w)
  resume-IsInStep trace (answers o) (block_of number latest) p c w v = (c, w)
  resume-IsInStep trace wakes (timer latest) p c w v =
      for_head-IsInStep (p.last_block_number +ℤ pos 1) latest p refl c
  resume-IsInStep trace wakes nothing p c w v = (c, w)
  resume-IsInStep trace wakes latest_number p c w v = (c, w)
  resume-IsInStep trace wakes (block_of number latest) p c w v = (c, w)
  resume-IsInStep trace (polls (failed e)) (block_of number latest) p c w v =
      fail-IsInStep trace e p c
  resume-IsInStep trace (polls (done block)) (block_of number latest) p c w v =
      hand-IsInStep number latest block p v c
  resume-IsInStep trace (polls o) nothing p c w v = (c, w)
  resume-IsInStep trace (polls o) latest_number p c w v = (c, w)
  resume-IsInStep trace (polls o) (timer latest) p c w v = (c, w)
  resume-IsInStep trace (sets i) a p c w v =
      (record { count = c.count; numbers = c.numbers; last = c.last }, w)

  run-IsInStep :
      (trace : String) (es : List Event) (p : Poller)
      → IsInStep start p
      → IsInStep start (run trace es p)
  run-IsInStep trace [] p h = h
  run-IsInStep trace (e ∷ es) p (c, w) =
      run-IsInStep trace es (resume trace e p.awaited p) (resume-IsInStep trace e p.awaited p c w w)

  start_polling-IsInStep : (now : ℕ) → IsInStep start (start_polling now start)
  unfolding start_polling
  start_polling-IsInStep now =
      let begun : Poller = record {
        polling_id = some now;
        id = now;
        last_block_number = start -ℤ pos 1;
        awaited = nothing;
        log = [];
      } in
      while_head-IsInStep begun (record { count = 0; numbers = refl; last = omega int_laws })

-- A run of `startBlockPolling` hands the blocks from its start block on to the observer, one after the
-- other: none is left out and none comes twice, whatever the block getter answers and whenever
-- `pollingId` is set.
pub polling-IsInOrder :
    (trace : String) (now : ℕ) (start : ℤ) (es : List Event)
    → let numbers = handed (run trace es (start_polling now start)).log in
      numbers ≡ span start (length numbers)
polling-IsInOrder trace now start es =
    let (c, w) = run-IsInStep start trace es _ (start_polling-IsInStep start now) in
    c.numbers ∙ ap (span start) (sym (ap length c.numbers ∙ length-span start c.count))
