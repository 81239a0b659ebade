-- ===== src/KafkaProducer/Connecting.antt =====
-- `start` of internal/kafka/producer/abstract_producer.ts when calls overlap: they share the promise of
-- one connection. A step ends where the code awaits.
use chain_indexer_framework.Prelude.{
  ℕ, ◌+◌, Bool, true, false, not, ◌&&◌, String, Option, none, some, List, [], ◌∷◌, ◌++◌, map,
  if◌then◌else◌,
}
use chain_indexer_framework.Errors.Value.{JsValue, object}
use chain_indexer_framework.Errors.Convert.{kafka_create_unknown}
use chain_indexer_framework.Store.{Outcome, done, failed}

-- `producerConnectPromise`, before the first connection and then as it stands.
pub data Promised : Type 0 where
  absent pending fulfilled : Promised
  rejected : JsValue → Promised

pub record Connecting : Type 0 where
  pub producer_connected : Bool
  pub producer_connecting : Bool
  pub promise : Promised
  -- How often the client was told to connect.
  pub connects : ℕ
  -- The calls of `start` that wait for the promise, and what the others ended with, newest first.
  pub waiting : List ℕ
  pub ended : List (ℕ × Outcome (Unit {0}))

unfoldable pub new_connecting : Connecting
new_connecting = record {
  producer_connected = false;
  producer_connecting = false;
  promise = absent;
  connects = 0;
  waiting = [];
  ended = [];
}

abbrev pub ends_with : Outcome (Unit {0}) → ℕ → ℕ × Outcome (Unit {0})
ends_with outcome call = (call, outcome)

module _ (trace : String) where
  -- What the `catch` of `start` throws.
  abbrev pub refusal : JsValue → Outcome (Unit {0})
  refusal e = failed (object (kafka_create_unknown trace e true))

  -- `await this.producerConnectPromise` of one call.
  abbrev pub await_promise : (call : ℕ) → Promised → Connecting → Connecting
  await_promise call absent c = record c { ended = (call, done tt) ∷ c.ended }
  await_promise call pending c = record c { waiting = call ∷ c.waiting }
  await_promise call fulfilled c = record c { ended = (call, done tt) ∷ c.ended }
  await_promise call (rejected e) c = record c {
    producer_connecting = false;
    ended = (call, refusal e) ∷ c.ended;
  }

  unfoldable pub call_start : (call : ℕ) → Connecting → Connecting
  call_start call c =
      if not c.producer_connecting && not c.producer_connected
      then record c {
        producer_connecting = true;
        promise = pending;
        connects = c.connects + 1;
        waiting = call ∷ c.waiting;
      }
      else await_promise call c.promise c

  -- The client calls back, with an error or without: the promise settles, and with it every call that
  -- waits for it.
  abbrev pub connect_answered : Option JsValue → Connecting → Connecting
  connect_answered none c = record c {
    producer_connecting = false;
    producer_connected = true;
    promise = fulfilled;
    waiting = [];
    ended = map (ends_with (done tt)) c.waiting ++ c.ended;
  }
  connect_answered (some e) c = record c {
    producer_connecting = false;
    promise = rejected e;
    waiting = [];
    ended = map (ends_with (refusal e)) c.waiting ++ c.ended;
  }

  unfoldable pub on_connect_answer : Option JsValue → Connecting → Connecting
  on_connect_answer answer c = if c.producer_connecting then connect_answered answer c else c

  -- `onKafkaError` and `onDisconnected`, as far as they change the connection.
  unfoldable pub on_connection_lost : Connecting → Connecting
  on_connection_lost c = record c { producer_connected = false }

  pub data ConnectionEvent : Type 0 where
    calls_start : ℕ → ConnectionEvent
    calls_back : Option JsValue → ConnectionEvent
    loses_connection : ConnectionEvent

  abbrev pub connection_event : ConnectionEvent → Connecting → Connecting
  connection_event (calls_start call) c = call_start call c
  connection_event (calls_back answer) c = on_connect_answer answer c
  connection_event loses_connection c = on_connection_lost c

  abbrev pub run_connection : List ConnectionEvent → Connecting → Connecting
  run_connection [] c = c
  run_connection (e ∷ es) c = run_connection es (connection_event e c)
