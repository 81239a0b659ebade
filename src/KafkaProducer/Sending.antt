-- ===== src/KafkaProducer/Sending.antt =====
-- internal/kafka/producer/abstract_producer.ts: connecting, sending and stopping. What the client and
-- the coder answer is an argument. A promise that is pending from an earlier call is not modelled.
use chain_indexer_framework.Prelude.{
  ℕ, zero, suc, ◌+◌, Bool, true, false, not, ◌&&◌, String, Option, none, some, List, ◌∷◌,
  if◌then◌else◌,
}
use chain_indexer_framework.Errors.Value.{JsObject, JsValue, object}
use chain_indexer_framework.Errors.Convert.{convert_lib_error, kafka_create_unknown}
use chain_indexer_framework.Store.{Outcome, done, failed}

pub data Emitted : Type 0 where
  error_event : JsObject → Emitted
  disconnected_event : Emitted

pub record Sender : Type 0 where
  pub producer_connected : Bool
  pub producer_connecting : Bool
  -- How many listeners there are for "event.error" and for "disconnected".
  pub error_listeners : ℕ
  pub disconnected_listeners : ℕ
  pub emitted : List Emitted

-- `connectToBroker`, with what the client's `connect` calls back.
unfoldable pub connect_to_broker : Option JsValue → Sender → Sender × Outcome (Unit {0})
connect_to_broker none s = (
  record s {
    error_listeners = s.error_listeners + 1;
    disconnected_listeners = s.disconnected_listeners + 1;
    producer_connecting = false;
    producer_connected = true;
  },
  done tt,
)
connect_to_broker (some e) s = (
  record s {
    error_listeners = s.error_listeners + 1;
    disconnected_listeners = s.disconnected_listeners + 1;
    producer_connecting = false;
  },
  failed e,
)

unfoldable pub on_disconnected : Sender → Sender
on_disconnected s = record s {
  producer_connected = false;
  error_listeners = 0;
  disconnected_listeners = 0;
  emitted = disconnected_event ∷ s.emitted;
}

unfoldable pub on_kafka_error : JsObject → Sender → Sender
on_kafka_error e s = record s { producer_connected = false; emitted = error_event e ∷ s.emitted }

-- librdkafka reports an error: each of the listeners for "event.error" that `connectToBroker` has added
-- calls `onKafkaError`.
abbrev pub hear_error : (listeners : ℕ) → JsObject → Sender → Sender
hear_error zero e s = s
hear_error (suc n) e s = hear_error n e (on_kafka_error (convert_lib_error e true) s)

unfoldable pub on_event_error : JsObject → Sender → Sender
unfolding on_kafka_error
on_event_error e s = hear_error s.error_listeners e s

-- The `catch` of `start` and `_start`.
abbrev pub started : (trace : String) → Sender × Outcome (Unit {0}) → Sender × Outcome (Unit {0})
started trace (s, done _) = (s, done tt)
started trace (s, failed e) =
    (record s { producer_connecting = false }, failed (object (kafka_create_unknown trace e true)))

unfoldable pub start_producer :
    (trace : String) → Option JsValue → Sender → Sender × Outcome (Unit {0})
unfolding connect_to_broker
start_producer trace answer s = started trace (
    if not s.producer_connecting && not s.producer_connected
    then connect_to_broker answer s
    else (s, done tt))

abbrev pub give_up : (trace : String) → JsValue → Sender → Sender × Outcome (Unit {0})
give_up trace e s = (
  on_kafka_error (kafka_create_unknown trace e true) s,
  failed (object (kafka_create_unknown trace e true)),
)

-- After the connection: `serialize`, then `produce`, which answers `true` or an error.
abbrev pub produced :
    (trace : String)
    → Outcome (Unit {0})
    → Sender × Outcome (Unit {0})
    → Sender × Outcome (Unit {0})
produced trace answer (s, failed e) = give_up trace e s
produced trace (done _) (s, done _) = (s, done tt)
produced trace (failed e) (s, done _) = give_up trace e s

unfoldable pub send_to_internal_producer :
    (trace : String) → Option JsValue → Outcome (Unit {0}) → Sender → Sender × Outcome (Unit {0})
unfolding start_producer
send_to_internal_producer trace connection answer s =
    produced trace answer
      (if s.producer_connected then (s, done tt) else start_producer trace connection s)

-- `stop`, with what the client's `disconnect` calls back.
unfoldable pub stop_producer : Option JsObject → Sender → Sender × Outcome (Unit {0})
unfolding on_disconnected
stop_producer none s = (on_disconnected s, done tt)
stop_producer (some e) s = (s, failed (object (convert_lib_error e false)))
