-- ===== src/Producer/Resumption.antt =====
-- A restart of internal/block_producers/block_producer.ts with the start block that `getStartBlock`
-- finds, and the subscription of internal/block_subscription/abstract_block_subscription.ts that it
-- begins.
use chain_indexer_framework.Prelude.{
  ◌≡◌, ◌⊎◌, sym, subst, inl, inr, false, ℕ, String, Option, none, some, map, List, [], ◌∷◌, ◌++◌,
  arith, dec_le, ◌+◌,
}
use chain_indexer_framework.Prelude.Int.{
  pos_part, neg_part, ℤ, pos, ◌+ℤ◌, ◌-ℤ◌, ◌≤ℤ◌, ◌<ℤ◌, int_laws, +ℤ_parts,
}
use chain_indexer_framework.Errors.Value.{JsValue}
use chain_indexer_framework.Store.{Outcome, done, ProducedBlock, Collection, Documented, get}
use chain_indexer_framework.Subscription.State.{Block, Subscription}
use chain_indexer_framework.Subscription.Live.{begin_subscription, subscribe_to_logs}
use chain_indexer_framework.Queue.Refines.{clear-Holds}
use chain_indexer_framework.Subscription.BackFill.{back_fill_blocks}
use chain_indexer_framework.Subscription.Filling.{
  span, Event as FillEvent, run as run_fills, back_filled, AreAnswers,
}
use chain_indexer_framework.Subscription.FillOrder.{back_fill_blocks-IsInOrder}
use chain_indexer_framework.Subscription.Walks.{requested, Walks}
use chain_indexer_framework.Subscription.Requests.{Event, run, run-Requests}
use chain_indexer_framework.Producer.StartBlock.{RemoteBlock, Start, start_at, get_start_block}
use chain_indexer_framework.Producer.Life.{Life, StartAnswers, restart}
use chain_indexer_framework.Producer.Starting.{stops_well, RunsFrom, restart-RunsFrom}
use chain_indexer_framework.Producer.Resume.{
  Setting, Verdict, agreed, absent, exhausted, get_start_block-Verdict,
}

-- Everything but `getStartBlock` succeeds.
abbrev pub with_start_block : Start → StartAnswers
with_start_block r = record {
  database = done tt;
  connection = none;
  start_block = r;
  subscription = done tt;
}

-- A subscription without blocks to fill in, from the block that the producer passes to it.
unfoldable pub live_from : (finalized : ℤ) → Option ℤ → Subscription → Subscription
live_from finalized none s = s
live_from finalized (some n) s = subscribe_to_logs (begin_subscription finalized n s)

-- One that fills in blocks first, with its workers.
unfoldable pub filling_from :
    (finalized : ℤ) (now workers : ℕ) → Option ℤ → Subscription → Subscription
filling_from finalized now workers none s = s
filling_from finalized now workers (some n) s =
    back_fill_blocks now workers (begin_subscription finalized n s)

abbrev pub IsIn : ℤ → List ℤ → Type 0
IsIn k [] = ⊥
IsIn k (n ∷ ns) = (k ≡ n) ⊎ IsIn k ns

next_or_above : (n k : ℤ) → n <ℤ k → (k ≡ n +ℤ pos 1) ⊎ (n +ℤ pos 1 <ℤ k)
next_or_above n k h = elim (dec_le (pos_part k + neg_part n) (pos_part n + neg_part k + 1)) [
  | yes up ↦ inl (omega (int_laws, h, up))
  | no above ↦ inr (omega (int_laws, above))
]

step_to : (n r k : ℤ) → (r ≡ n +ℤ pos 1) ⊎ (r ≡ n) → n <ℤ k → (k ≡ r) ⊎ (r <ℤ k)
step_to n r k (inl e) h = subst (λ i. (k ≡ i) ⊎ (i <ℤ k)) (sym e) (next_or_above n k h)
step_to n r k (inr e) h = inr (subst (λ i. i <ℤ k) (sym e) h)

-- A walk visits every number above its first that it does not stop below.
Walks-IsIn : (n m k : ℤ) (ns : List ℤ) → Walks n ns m → n <ℤ k → (m <ℤ k) ⊎ IsIn k ns
Walks-IsIn n m k [] e h = inl (subst (λ i. i <ℤ k) e h)
Walks-IsIn n m k (r ∷ ns) (step, w) h = elim (step_to n r k step h) [
  | inl same ↦ inr (inl same)
  | inr below ↦ elim (Walks-IsIn r m k ns w below) [
    | inl stops ↦ inl stops
    | inr inside ↦ inr (inr inside)
  ]
]

-- What a subscription from this block does, as events come, about a number `k`: without blocks to fill
-- in it requests `k` unless its last received number stays below; and with blocks to fill in it hands
-- the blocks under its first number and the ones after it to the observer, one after the other.
abbrev pub Resumes :
    (answer : ℤ → Block) (trace : String) (finalized k : ℤ) (now workers : ℕ) (es : List Event)
    (fs : List FillEvent)
    → Subscription
    → Option ℤ
    → ℤ
    → Type 0
Resumes answer trace finalized k now workers es fs sub o j =
    let sub' = run trace es (live_from finalized o sub) in
    let filled = run_fills trace fs (filling_from finalized now workers o sub) in
    ((ns : List ℤ) × (requested sub'.log ≡ requested sub.log ++ ns)
      × ((sub'.last_received_block_number <ℤ k) ⊎ IsIn k ns))
    × ((count : ℕ) × (back_filled filled.log ≡ back_filled sub.log ++ map answer (span j count))
        × (filled.next_block ≡ j +ℤ pos count))

below_next : (j n : ℤ) → j -ℤ pos 1 ≤ℤ n → j ≤ℤ n +ℤ pos 1
below_next j n h = omega (int_laws, h)

module _ (m : Collection) (doc : Documented m) (stringify : JsValue → String)
    (fetch : ℤ → Outcome RemoteBlock) (start_block : ℤ) (s : m.State) (w : Setting m fetch s) where
  -- The search does not come back with a number above the one after the highest produced block.
  Verdict-bound :
      (n j : ℤ) (rounds : ℕ)
      → ((c : ProducedBlock) → m.Stored s c → c.number ≤ℤ n)
      → Verdict m doc stringify fetch start_block s w n rounds j
      → j ≤ℤ n +ℤ pos 1
  Verdict-bound n j rounds highest (agreed (c, stored, at, same) r) =
      below_next j n (subst (λ i. i ≤ℤ n) at (highest c stored))
  Verdict-bound n j rounds highest (absent a below r) = omega (int_laws, below)
  Verdict-bound n j rounds highest (exhausted e r) =
      subst (λ i. i ≤ℤ n +ℤ pos 1) (sym e) (omega int_laws)

  abbrev pub restarted : (trace : String) (depth : ℕ) → Life → Life × Outcome (Unit {0})
  restarted trace depth l =
      restart trace stops_well
        (with_start_block (get_start_block m stringify fetch start_block s depth)) l

  restarted-RunsFrom :
      (trace : String) (depth : ℕ) (l : Life) (j : ℤ)
      → l.force_stop ≡ false
      → get_start_block m stringify fetch start_block s depth ≡ start_at j
      → RunsFrom j (restarted trace depth l)
  restarted-RunsFrom trace depth l j h e = rw e (restart-RunsFrom trace j l h)

  -- The blocks requested in a run of the subscription that the restarted producer begins.
  begun-IsIn :
      (trace : String) (finalized j k : ℤ) (es : List Event) (sub : Subscription)
      → j ≤ℤ k
      → (ns : List ℤ) × (requested (run trace es (live_from finalized (some j) sub)).log
          ≡ requested sub.log ++ ns)
        × (((run trace es (live_from finalized (some j) sub)).last_received_block_number <ℤ k)
            ⊎ IsIn k ns)
  unfolding live_from subscribe_to_logs begin_subscription
  begun-IsIn trace finalized j k es sub h =
      let r = run-Requests trace es (live_from finalized (some j) sub) in
      (r.numbers, r.recorded, Walks-IsIn (j -ℤ pos 1) _ k r.numbers r.walk (omega (int_laws, h)))

  begun-span :
      (answer : ℤ → Block) (trace : String) (finalized j : ℤ) (now workers : ℕ)
      (fs : List FillEvent) (sub : Subscription)
      → AreAnswers answer trace fs (filling_from finalized now workers (some j) sub)
      → let filled = run_fills trace fs (filling_from finalized now workers (some j) sub) in
        (count : ℕ) × (back_filled filled.log ≡ back_filled sub.log ++ map answer (span j count))
        × (filled.next_block ≡ j +ℤ pos count)
  unfolding filling_from begin_subscription
  begun-span answer trace finalized j now workers fs sub right =
      let f =
        back_fill_blocks-IsInOrder answer trace now workers fs (begin_subscription finalized j sub)
          (clear-Holds sub.queue) right in
      (f.count, f.handed, f.moved)

  -- In such a `Setting`, in which MongoDB answers every query, the node returns the block that it is asked
  -- for, and no produced block has number 0 or 1 or the number of another one, and with produced blocks in
  -- the collection, a restart of a producer that no error has
  -- ended, in which all calls succeed, runs from a block that is not above the one after the highest
  -- produced block. When there are no blocks to fill in, its subscription requests every block above the
  -- highest produced one that its last received number reaches, whatever logs come, malformed ones and
  -- those of a re-organised chain among them, and whatever the workers answer. When there are, and
  -- each awaited promise that settles without an error gives the block under the requested number, the
  -- observer is handed the blocks under that number and the ones after it, one after the other and as
  -- many as `nextBlock` goes on by, however the workers and the promises settle.
  pub restart-no_gap :
      (answer : ℤ → Block) (trace : String) (depth : ℕ) (l : Life) (head : ProducedBlock)
      (finalized k : ℤ) (now workers : ℕ) (es : List Event) (fs : List FillEvent)
      (sub : Subscription)
      → get m none s ≡ done (some head)
      → l.force_stop ≡ false
      → head.number <ℤ k
      → AreAnswers answer trace fs
          (filling_from finalized now workers (restarted trace depth l).0.subscribed sub)
      → let (l', outcome) = restarted trace depth l in
        (outcome ≡ done tt)
        × ((j : ℤ) × (j ≤ℤ head.number +ℤ pos 1)
            × Resumes answer trace finalized k now workers es fs sub l'.subscribed j)
  restart-no_gap answer trace depth l head finalized k now workers es fs sub e h above right =
      let ((j, result, verdict), highest) =
        get_start_block-Verdict m doc stringify fetch start_block s w depth head e in
      let bound = Verdict-bound head.number j depth highest verdict in
      let runs = restarted-RunsFrom trace depth l j h result in
      (
        runs.outcome,
        (
          j,
          bound,
          subst (λ o. Resumes answer trace finalized k now workers es fs sub o j)
              (sym runs.from_block)
              (
                begun-IsIn trace finalized j k es sub
                    (omega (arith, bound, above, +ℤ_parts head.number (pos 1))),
                begun-span answer trace finalized j now workers fs sub (
                    subst
                      (λ o. AreAnswers answer trace fs (filling_from finalized now workers o sub))
                      runs.from_block right),
              ),
        ),
      )
