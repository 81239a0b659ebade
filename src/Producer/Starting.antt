-- ===== src/Producer/Starting.antt =====
-- A restart of internal/block_producers/block_producer.ts that succeeds, and a `start` that follows one
-- that failed.
use chain_indexer_framework.Prelude.{
  ℕ, zero, suc, ◌+◌, ◌≡◌, refl, ap, ◌∙◌, inl, inr, true, false, not, ◌&&◌, String, none, some, [],
  arith, Bool-cases,
}
use chain_indexer_framework.Prelude.Int.{ℤ, negsuc, eq_ℤ}
use chain_indexer_framework.Errors.Value.{JsValue}
use chain_indexer_framework.Store.{Outcome, done, failed, Collection}
use chain_indexer_framework.Queue.{enqueue}
use chain_indexer_framework.KafkaProducer.Sending.{
  Sender, connect_to_broker, on_disconnected, start_producer, stop_producer,
}
use chain_indexer_framework.Producer.Deliveries.{DeliveryReport, Pending, on_delivered}
use chain_indexer_framework.Producer.StartBlock.{start_at, thrown}
use chain_indexer_framework.Producer.Life.{
  Life, StartAnswers, StopAnswers, after_connection, start, stop, restart,
}

-- The answers with which everything succeeds.
abbrev pub all_well : ℤ → StartAnswers
all_well n = record {
  database = done tt;
  connection = none;
  start_block = start_at n;
  subscription = done tt;
}

abbrev pub stops_well : StopAnswers
stops_well = record { subscription = done tt; disconnection = none }

-- A producer that runs: its subscription from block `n`, with one listener and no call pending.
pub record RunsFrom (n : ℤ) (r : Life × Outcome (Unit {0})) : Type 0 where
  pub outcome : r.1 ≡ done tt
  pub from_block : r.0.subscribed ≡ some n
  pub one_listener : r.0.delivered_listeners ≡ 1
  pub none_pending : r.0.producing ≡ []

connected : (trace : String) (s : Sender) → (start_producer trace none s).1 ≡ done tt
unfolding start_producer connect_to_broker
connected trace s = elim (Bool-cases (not s.producer_connecting && not s.producer_connected)) [
  | inl y ↦ rw y refl
  | inr n ↦ rw n refl
]

resumed-RunsFrom :
    (n : ℤ) (r : Sender × Outcome (Unit {0})) (l : Life)
    → r.1 ≡ done tt
    → l.delivered_listeners ≡ 0
    → l.producing ≡ []
    → RunsFrom n (after_connection (all_well n) r l)
resumed-RunsFrom n (sender, failed e) l h none_left empty = absurd (ground (arith, h))
resumed-RunsFrom n (sender, done u) l h none_left empty = record {
  outcome = refl;
  from_block = refl;
  one_listener = omega (arith, none_left);
  none_pending = empty;
}

-- A producer that no error has ended, however many listeners and pending calls it has, restarts when
-- every call of `stop` and `start` succeeds: it then runs from the block that `getStartBlock` gives, with
-- one "delivered" listener and no call of `produceBlock` pending.
pub restart-RunsFrom :
    (trace : String) (n : ℤ) (l : Life)
    → l.force_stop ≡ false
    → RunsFrom n (restart trace stops_well (all_well n) l)
unfolding restart stop stop_producer
restart-RunsFrom trace n l h = rw h (
    resumed-RunsFrom n (start_producer trace none (on_disconnected l.sender))
      (record l {
        force_stop = false;
        sender = on_disconnected l.sender;
        delivered_listeners = 0;
        subscribed = none;
        producing = [];
      })
      (connected trace (on_disconnected l.sender)) refl refl)

-- A query of MongoDB fails in `getStartBlock`, which throws that error, and all else succeeds.
abbrev pub no_start_block : JsValue → StartAnswers
no_start_block e = record {
  database = done tt;
  connection = none;
  start_block = thrown e;
  subscription = done tt;
}

failed_start :
    (e : JsValue) (r : Sender × Outcome (Unit {0})) (l : Life)
    → r.1 ≡ done tt
    → ((after_connection (no_start_block e) r l).1 ≡ failed e)
      × ((after_connection (no_start_block e) r l).0.delivered_listeners
          ≡ l.delivered_listeners + 1)
      × ((after_connection (no_start_block e) r l).0.errors ≡ l.errors)
failed_start e (sender, failed x) l h = absurd (ground (arith, h))
failed_start e (sender, done u) l h = (refl, refl, refl)

good_start :
    (n : ℤ) (r : Sender × Outcome (Unit {0})) (l : Life)
    → r.1 ≡ done tt
    → ((after_connection (all_well n) r l).1 ≡ done tt)
      × ((after_connection (all_well n) r l).0.delivered_listeners ≡ l.delivered_listeners + 1)
      × ((after_connection (all_well n) r l).0.errors ≡ l.errors)
good_start n (sender, failed x) l h = absurd (ground (arith, h))
good_start n (sender, done u) l h = (refl, refl, refl)

module _ (m : Collection) (trace : String) (max_re_org_depth : ℕ) where
  -- A delivery report, which every listener hears.
  unfoldable pub hear :
      ℕ → DeliveryReport → Pending m trace max_re_org_depth → Pending m trace max_re_org_depth
  unfolding on_delivered
  hear zero report p = p
  hear (suc n) report p = hear n report (on_delivered m trace max_re_org_depth report p).0

  heard_twice :
      (k : ℕ) (report : DeliveryReport) (p : Pending m trace max_re_org_depth)
      → k ≡ 2
      → eq_ℤ report.partition (negsuc 0) ≡ false
      → p.mongo_insert_in_process ≡ true
      → (hear k report p).queue ≡ enqueue report.opaque (enqueue report.opaque p.queue)
  unfolding hear on_delivered
  heard_twice k report p h valid busy = ground (arith, h, valid, busy)

  -- Let `start` fail because a query of MongoDB fails in `getStartBlock`, in a producer without "delivered"
  -- listeners. Nothing is handed to `onError`, and the listener of that `start` stays. When the
  -- application then calls `start` again and that succeeds, there are two listeners, and while
  -- `mongoInsertInProcess` is set a report of a delivered block, of a partition other than -1, puts the
  -- block into the queue twice.
  pub start_again-heard_twice :
      (e : JsValue) (n : ℤ) (l : Life) (report : DeliveryReport)
      (p : Pending m trace max_re_org_depth)
      → l.delivered_listeners ≡ 0
      → eq_ℤ report.partition (negsuc 0) ≡ false
      → p.mongo_insert_in_process ≡ true
      → let first = start trace (no_start_block e) l in
        let second = start trace (all_well n) first.0 in
        (first.1 ≡ failed e)
        × (second.1 ≡ done tt)
        × (second.0.errors ≡ l.errors)
        × ((hear second.0.delivered_listeners report p).queue
            ≡ enqueue report.opaque (enqueue report.opaque p.queue))
  unfolding start
  start_again-heard_twice e n l report p h valid busy =
      let first =
        failed_start e (start_producer trace none l.sender) (record l { force_stop = false })
          (connected trace l.sender) in
      let l' = (start trace (no_start_block e) l).0 in
      let second =
        good_start n (start_producer trace none l'.sender) (record l' { force_stop = false })
          (connected trace l'.sender) in
      (
        first.0,
        second.0,
        second.2 ∙ first.2,
        heard_twice _ report p (second.1 ∙ ap (λ k. k + 1) (first.1 ∙ ap (λ k. k + 1) h)) valid
            busy,
      )
