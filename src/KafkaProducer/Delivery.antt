-- ===== src/KafkaProducer/Delivery.antt =====
-- `produceEvent` of internal/kafka/producer/synchronous_producer.ts: the promise of one call, its
-- listener for delivery reports and its timer. `identifier` is the object that only this call has.
use chain_indexer_framework.Prelude.{
  ℕ, Bool, true, false, ◌&&◌, ◌==◌, String, Option, none, some, if◌then◌else◌,
}
use chain_indexer_framework.Prelude.Text.{str_eq}
use chain_indexer_framework.Errors.Codes
use chain_indexer_framework.Errors.Value.{JsObject, object}
use chain_indexer_framework.Errors.Classes.{new_kafka_error}
use chain_indexer_framework.Errors.Convert.{convert_lib_error}
use chain_indexer_framework.Store.{Outcome, done, failed}

-- The fields of a delivery report that are read; another message's opaque may be missing.
pub record Report : Type 0 where
  pub opaque : Option ℕ
  pub topic : String

pub record Delivery : Type 0 where
  -- The argument, which may be left out.
  pub topic : Option String
  pub identifier : ℕ
  pub listens : Bool
  pub timer_runs : Bool
  pub settled : Option (Outcome Report)

unfoldable pub produce_event : (topic : Option String) → (identifier : ℕ) → Delivery
produce_event topic identifier = record {
  topic = topic;
  identifier = identifier;
  listens = true;
  timer_runs = true;
  settled = none;
}

-- A promise keeps what it is settled with first.
abbrev pub settle_first : Option (Outcome Report) → Outcome Report → Option (Outcome Report)
settle_first none o = some o
settle_first (some before) o = some before

-- The text says how long the call has waited.
unfoldable pub timed_out : (message : String) → JsObject
unfolding new_kafka_error
timed_out message = new_kafka_error Codes.delivery_timed_out (record {
  name = some "Kafka producer error";
  code = none;
  is_fatal = some false;
  message = some message;
  origin = some "remote";
  stack = none;
})

unfoldable pub on_timer : (message : String) → Delivery → Delivery
on_timer message d =
    if d.timer_runs
    then record d {
      timer_runs = false;
      settled = settle_first d.settled (failed (object (timed_out message)));
    }
    else d

abbrev pub is_own : Option ℕ → ℕ → Bool
is_own none identifier = false
is_own (some o) identifier = o == identifier

abbrev pub is_topic : String → Option String → Bool
is_topic t none = false
is_topic t (some topic) = str_eq t topic

-- The listener of the call, while it is registered.
unfoldable pub on_report : Option JsObject → Report → Delivery → Delivery
on_report (some e) report d =
    if d.listens
    then record d {
      listens = false;
      timer_runs = false;
      settled = settle_first d.settled (failed (object (convert_lib_error e false)));
    }
    else d
on_report none report d =
    if d.listens && (is_own report.opaque d.identifier && is_topic report.topic d.topic)
    then record d {
      listens = false;
      timer_runs = false;
      settled = settle_first d.settled (done report);
    }
    else d

-- `sendToInternalProducer` settles. Its error is thrown in the function that the promise was made
-- with, after its first `await`, where it settles nothing.
unfoldable pub on_sent : Outcome (Unit {0}) → Delivery → Delivery
on_sent (done _) d = d
on_sent (failed e) d = record d { listens = false }
