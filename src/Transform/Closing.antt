-- ===== src/Transform/Closing.antt =====
-- `start`, the `closed` observer and `isTranformerConnected` of `AbstractDataTransformer`, and the
-- observer that `execute` of internal/event_consumer/abstract_event_consumer.ts gives to its consumer.
use chain_indexer_framework.Prelude.{
  ◌≡◌, refl, Bool, true, false, ◌&&◌, String, some, none, List, ◌∷◌, if◌then◌else◌,
}
use chain_indexer_framework.Errors.Codes
use chain_indexer_framework.Errors.Value.{JsObject, object}
use chain_indexer_framework.Errors.Classes.{new_kafka_error}
use chain_indexer_framework.Errors.Convert.{kafka_create_unknown, event_consumer_create_unknown}
use chain_indexer_framework.Store.{Outcome, done, failed}

pub data Action : Type 0 where
  starts_producer starts_consumer stops_producer : Action
  emits_fatal : JsObject → Action

-- What the calls of the producer and the consumer answer.
pub record Answers : Type 0 where
  pub producer_stop : Outcome (Unit {0})
  pub producer_start : Outcome (Unit {0})
  pub consumer_start : Outcome (Unit {0})

abbrev pub after_producer :
    Answers → Outcome (Unit {0}) → List Action → List Action × Outcome (Unit {0})
after_producer a (failed e) log = (log, failed e)
after_producer a (done _) log = (starts_consumer ∷ log, a.consumer_start)

-- `start`; the log is newest first.
unfoldable pub start : Answers → List Action → List Action × Outcome (Unit {0})
start a log = after_producer a a.producer_start (starts_producer ∷ log)

abbrev pub after_producer_stop :
    Answers → Outcome (Unit {0}) → List Action → List Action × Outcome (Unit {0})
after_producer_stop a (failed e) log = (log, failed e)
after_producer_stop a (done _) log = start a log

-- The `catch` of `closed`.
abbrev pub tell : (trace : String) → List Action × Outcome (Unit {0}) → List Action
tell trace (log, done _) = log
tell trace (log, failed e) = emits_fatal (kafka_create_unknown trace e false) ∷ log

unfoldable pub transformer_stopped : JsObject
unfolding new_kafka_error
transformer_stopped = new_kafka_error Codes.unknown_consumer_err (record {
  name = some "Transformer stopped";
  code = some Codes.unknown_consumer_err;
  is_fatal = some true;
  message = some "Transformer stopped due to a fatal error.";
  origin = none;
  stack = none;
})

unfoldable pub on_closed : (trace : String) → (restart : Bool) → Answers → List Action → List Action
unfolding start
on_closed trace restart a log =
    let restarted = tell trace (after_producer_stop a a.producer_stop (stops_producer ∷ log)) in
    if restart then restarted else emits_fatal transformer_stopped ∷ log

abbrev pub is_transformer_connected : (producer consumer : Bool) → Bool
is_transformer_connected producer consumer = producer && consumer

-- The observer of `execute`: what `onEvent` throws is converted.
unfoldable pub on_next_event : (trace : String) → Outcome (Unit {0}) → Outcome (Unit {0})
unfolding event_consumer_create_unknown
on_next_event trace (done _) = done tt
on_next_event trace (failed e) = failed (object (event_consumer_create_unknown trace e true))

-- How a transformer comes out whose consumer has closed, the newest action first.
pub data Closed (log : List Action) (a : Answers) : List Action → Type 0 where
  resumed :
      a.consumer_start ≡ done tt
      → Closed log a (starts_consumer ∷ starts_producer ∷ stops_producer ∷ log)
  told : (e : JsObject) (before : List Action) → Closed log a (emits_fatal e ∷ before)

consumer-Closed :
    (trace : String) (a : Answers) (o : Outcome (Unit {0})) (log : List Action)
    → a.consumer_start ≡ o
    → Closed log a (tell trace (starts_consumer ∷ starts_producer ∷ stops_producer ∷ log, o))
consumer-Closed trace a (done tt) log h = resumed h
consumer-Closed trace a (failed e) log h = told _ _

producer-Closed :
    (trace : String) (a : Answers) (o : Outcome (Unit {0})) (log : List Action)
    → Closed log a (tell trace (after_producer a o (starts_producer ∷ stops_producer ∷ log)))
producer-Closed trace a (failed e) log = told _ _
producer-Closed trace a (done u) log = consumer-Closed trace a a.consumer_start log refl

stopped-Closed :
    (trace : String) (a : Answers) (o : Outcome (Unit {0})) (log : List Action)
    → Closed log a (tell trace (after_producer_stop a o (stops_producer ∷ log)))
unfolding start
stopped-Closed trace a (failed e) log = told _ _
stopped-Closed trace a (done u) log = producer-Closed trace a a.producer_start log

-- Whatever the calls answer: when the consumer has closed, the producer is stopped and started and the
-- consumer started again with success, or the last action is a `fatalError` event.
pub on_closed-Closed :
    (trace : String) (restart : Bool) (a : Answers) (log : List Action)
    → Closed log a (on_closed trace restart a log)
unfolding on_closed
on_closed-Closed trace true a log = stopped-Closed trace a a.producer_stop log
on_closed-Closed trace false a log = told _ _
