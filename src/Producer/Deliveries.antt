-- ===== src/Producer/Deliveries.antt =====
-- The way of a delivered block to MongoDB in internal/block_producers/block_producer.ts: the
-- "delivered" listener of `start`, `processQueue` and `addBlockToMongo`. Between two steps here the
-- program runs other listeners; a step ends where the code awaits `addBlockToMongo`, or returns.
use chain_indexer_framework.Prelude.{
  ℕ, zero, suc, ◌-◌, Bool, true, false, String, Option, none, some, List, [], ◌∷◌, if◌then◌else◌,
  ltb,
}
use chain_indexer_framework.Prelude.Int.{ℤ, negsuc, eq_ℤ}
use chain_indexer_framework.Queue.{
  Queue, new_queue, enqueue, get_length, is_empty, shift, shift_by_n,
}
use chain_indexer_framework.Errors.Value.{JsObject, object}
use chain_indexer_framework.Errors.Classes.{new_block_producer_error}
use chain_indexer_framework.Errors.Convert.{block_producer_create_unknown}
use chain_indexer_framework.Store.{Outcome, done, failed, ProducedBlock, Collection, add}

-- The part of the delivery report that is read; the opaque is the block that was produced.
pub record DeliveryReport : Type 0 where
  pub partition : ℤ
  pub opaque : ProducedBlock

-- One round of the loop of `processQueue` picks: of more than `maxReOrgDepth` blocks, the one with
-- that many behind it.
unfoldable pub take_next : ℕ → Queue ProducedBlock → Option ProducedBlock × Queue ProducedBlock
take_next max_re_org_depth q =
    if ltb max_re_org_depth (get_length q)
    then shift_by_n (get_length q - max_re_org_depth) q
    else shift q

pub topic_missing : JsObject
unfolding new_block_producer_error
topic_missing = new_block_producer_error (record {
  name = some "Kafka topic does not exist";
  code = none;
  is_fatal = some true;
  message = some "Kafka topic does not exist or could not be created.";
  origin = some "remote";
  stack = none;
})

module _ (m : Collection) (trace : String) (max_re_org_depth : ℕ) where
  -- The fields of the producer that the deliveries change, the blocks whose `addBlockToMongo`
  -- is awaited, one for each loop of `processQueue` that runs, and the collection.
  pub record Pending : Type 0 where
    pub queue : Queue ProducedBlock
    pub in_flight : List ProducedBlock
    pub mongo_insert_in_process : Bool
    pub store : m.State

  abbrev give_up : Outcome (Unit {0}) × m.State → Outcome (Unit {0}) × m.State
  give_up (done u, s) = (done u, s)
  give_up (failed e, s) = (failed (object (block_producer_create_unknown trace e true)), s)

  -- The retries left are `4 - retryCount`.
  unfoldable pub add_block_to_mongo : ProducedBlock → ℕ → m.State → Outcome (Unit {0}) × m.State
  add_block_to_mongo details zero s = give_up (add m details max_re_org_depth s)
  add_block_to_mongo details (suc left) s =
      let (o, s') = add m details max_re_org_depth s in
      elim o [ done u ↦ (done u, s') | failed e ↦ add_block_to_mongo details left s' ]

  abbrev pub awaits : Option ProducedBlock → List ProducedBlock → List ProducedBlock
  awaits none blocks = blocks
  awaits (some block) blocks = block ∷ blocks

  -- The test of the `while` loop, and the round up to its `await`.
  unfoldable pub loop_head : Pending → Pending
  loop_head p =
      if is_empty p.queue then record p { mongo_insert_in_process = false } else record p {
        queue = (take_next max_re_org_depth p.queue).1;
        in_flight = awaits (take_next max_re_org_depth p.queue).0 p.in_flight;
      }

  -- `processQueue`, up to its first `await`.
  unfoldable pub process_queue : Pending → Pending
  process_queue p = loop_head (record p { mongo_insert_in_process = true })

  abbrev enqueued : ProducedBlock → Pending → Pending
  enqueued block p = record p { queue = enqueue block p.queue }

  -- The listener; the error is the one handed to `onError`.
  unfoldable pub on_delivered : DeliveryReport → Pending → Pending × Option JsObject
  on_delivered report p = if eq_ℤ report.partition (negsuc 0) then (p, some topic_missing) else (
    if p.mongo_insert_in_process
        then enqueued report.opaque p
        else process_queue (enqueued report.opaque p),
    none,
  )

  abbrev pub resume_loop : Pending → Outcome (Unit {0}) × m.State → Pending
  resume_loop p (done _, s) = loop_head (record p { store = s })
  resume_loop p (failed e, s) = record p { store = s; mongo_insert_in_process = false }

  abbrev pub complete : Pending → List ProducedBlock → Pending
  complete p [] = p
  complete p (block ∷ others) =
      resume_loop (record p { in_flight = others }) (add_block_to_mongo block 4 p.store)

  -- An awaited `addBlockToMongo` settles: its loop goes on, or its `catch` ends it.
  unfoldable pub on_added : Pending → Pending
  on_added p = complete p p.in_flight

  abbrev pub idle : m.State → Pending
  idle s = record { queue = new_queue; in_flight = []; mongo_insert_in_process = false; store = s }

  -- What happens to the producer, as it comes.
  pub data Event : Type 0 where
    delivered : DeliveryReport → Event
    added : Event

  abbrev pub on_event : Event → Pending → Pending
  on_event (delivered report) p = (on_delivered report p).0
  on_event added p = on_added p
