-- ===== src/Consumer/Connection.antt =====
-- Connecting and subscribing in internal/kafka/consumer/abstract_consumer.ts: `connectToBroker`,
-- `createConnection`, `createSubscription` and `start`. The answer of the client's `connect` is an
-- argument. A promise that is pending from an earlier call is not modelled: a call comes after it.
use chain_indexer_framework.Prelude.{
  Bool, true, false, not, ◌&&◌, ◌||◌, String, Option, none, some, List, [], ◌∷◌, ◌==◌, length,
  if◌then◌else◌,
}
use chain_indexer_framework.Prelude.Text.{str_eq}
use chain_indexer_framework.Errors.Codes
use chain_indexer_framework.Errors.Value.{JsObject, object}
use chain_indexer_framework.Errors.Classes.{new_kafka_error}
use chain_indexer_framework.Errors.Convert.{convert_lib_error, kafka_create_unknown}
use chain_indexer_framework.Store.{Outcome, done, failed}
use chain_indexer_framework.Consumer.State.{
  connects, subscribes, consumes, removes_listeners, listens, Consumer,
}
use chain_indexer_framework.Consumer.Steps.{logged}

pub invalid_config : String → JsObject
unfolding new_kafka_error
invalid_config message = new_kafka_error Codes.invalid_coder_config (record {
  name = some "Invalid coder config";
  code = none;
  is_fatal = some true;
  message = some message;
  origin = some "local";
  stack = none;
})

pub has_coder : List String → String → Bool
has_coder [] topic = false
has_coder (t ∷ rest) topic = str_eq t topic || has_coder rest topic

pub all_have_coders : List String → List String → Bool
unfolding has_coder
all_have_coders coders [] = true
all_have_coders coders (topic ∷ rest) = has_coder coders topic && all_have_coders coders rest

-- What the client's `connect` calls back: an error of librdkafka, or the metadata.
unfoldable pub connect_to_broker : Option JsObject → Consumer → Consumer × Outcome (Unit {0})
connect_to_broker none c = (
  logged connects
      (record c { consumer_connecting = false; consumer_connected = true; has_metadata = true }),
  done tt,
)
connect_to_broker (some e) c = (
  logged connects (record c { consumer_connecting = false }),
  failed (object (convert_lib_error e false)),
)

unfoldable pub create_connection : Option JsObject → Consumer → Consumer × Outcome (Unit {0})
unfolding invalid_config all_have_coders
create_connection answer c =
    if not (length c.coders == length c.topics)
    then (c, failed (object (invalid_config "Coder configuration is not set for every topic.")))
    else if not (all_have_coders c.coders c.topics)
    then (c, failed (object (invalid_config "Coder config does not match topic names.")))
    else if not c.consumer_connecting && not c.consumer_connected
    then connect_to_broker answer c
    else (c, done tt)

abbrev pub after_connection :
    (trace : String) → Consumer × Outcome (Unit {0}) → Consumer × Outcome (Unit {0})
after_connection trace (c, done _) = (logged consumes (logged (subscribes c.topics) c), done tt)
after_connection trace (c, failed e) = (c, failed (object (kafka_create_unknown trace e false)))

unfoldable pub create_subscription :
    (trace : String) → Option JsObject → Consumer → Consumer × Outcome (Unit {0})
create_subscription trace answer c =
    after_connection trace
      (if c.consumer_connected then (c, done tt) else create_connection answer c)

-- Whether listeners are left from before decides if they are removed.
unfoldable pub start :
    (trace : String)
    → (has_listeners : Bool) → Option JsObject
    → Consumer
    → Consumer × Outcome (Unit {0})
start trace has_listeners answer c = create_subscription trace answer (
    logged listens
      (record (if has_listeners then logged removes_listeners c else c) { has_observer = true }))
