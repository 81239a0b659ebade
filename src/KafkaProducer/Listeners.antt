-- ===== src/KafkaProducer/Listeners.antt =====
-- The listeners that `connectToBroker` of internal/kafka/producer/abstract_producer.ts adds when a send
-- follows an error.
use chain_indexer_framework.Prelude.{
  ℕ, zero, suc, ◌+◌, ◌≡◌, refl, sym, subst, ◌∙◌, true, false, String, none, arith, length,
}
use chain_indexer_framework.Errors.Value.{JsObject}
use chain_indexer_framework.Errors.Convert.{convert_lib_error}
use chain_indexer_framework.Store.{done}
use chain_indexer_framework.KafkaProducer.Sending.{
  Sender, on_kafka_error, hear_error, on_event_error, connect_to_broker, start_producer,
  send_to_internal_producer,
}

-- Librdkafka reports an error and the next event is sent, for which the connection, the serialising
-- and the client's `produce` succeed.
abbrev pub round : (trace : String) → JsObject → Sender → Sender
round trace e s = (send_to_internal_producer trace none (done tt) (on_event_error e s)).0

abbrev pub rounds : (trace : String) → JsObject → ℕ → Sender → Sender
rounds trace e zero s = s
rounds trace e (suc n) s = rounds trace e n (round trace e s)

-- What a report to that many listeners leaves as it is, and what it adds.
record Hears (n : ℕ) (s s' : Sender) : Type 0 where
  listeners : s'.error_listeners ≡ s.error_listeners
  connecting : s'.producer_connecting ≡ s.producer_connecting
  added : length s'.emitted ≡ n + length s.emitted

hear_error-Hears : (n : ℕ) (e : JsObject) (s : Sender) → Hears n s (hear_error n e s)
unfolding on_kafka_error
hear_error-Hears zero e s = record { listeners = refl; connecting = refl; added = omega arith }
hear_error-Hears (suc n) e s =
    let h = hear_error-Hears n e (on_kafka_error (convert_lib_error e true) s) in
    record { listeners = h.listeners; connecting = h.connecting; added = omega (arith, h.added) }

hear_error_disconnects :
    (n : ℕ) (e : JsObject) (s : Sender)
    → s.producer_connected ≡ false
    → (hear_error n e s).producer_connected ≡ false
unfolding on_kafka_error
hear_error_disconnects zero e s h = h
hear_error_disconnects (suc n) e s h =
    hear_error_disconnects n e (on_kafka_error (convert_lib_error e true) s) refl

-- A producer with at least one listener does not count as connected after an error.
disconnects :
    (k : ℕ) (e : JsObject) (s : Sender)
    → s.error_listeners ≡ suc k
    → (on_event_error e s).producer_connected ≡ false
unfolding on_event_error on_kafka_error
disconnects k e s h =
    subst (λ n. (hear_error n e s).producer_connected ≡ false) (sym h)
      (hear_error_disconnects k e (on_kafka_error (convert_lib_error e true) s) refl)

sends-Reconnects :
    (trace : String) (s : Sender)
    → s.producer_connected ≡ false
    → s.producer_connecting ≡ false
    → let s' = (send_to_internal_producer trace none (done tt) s).0 in
      (s'.error_listeners ≡ s.error_listeners + 1) × (s'.producer_connecting ≡ false)
unfolding send_to_internal_producer start_producer connect_to_broker
sends-Reconnects trace s c d = rw (c, d) (refl, refl)

round-listeners :
    (trace : String) (e : JsObject) (k : ℕ) (s : Sender)
    → s.error_listeners ≡ suc k
    → s.producer_connecting ≡ false
    → ((round trace e s).error_listeners ≡ suc (suc k))
      × ((round trace e s).producer_connecting ≡ false)
unfolding on_event_error
round-listeners trace e k s l c =
    let h = hear_error-Hears s.error_listeners e s in
    let (more, idle) =
      sends-Reconnects trace (on_event_error e s) (disconnects k e s l) (h.connecting ∙ c) in
    (omega (arith, more, h.listeners, l), idle)

rounds-listeners :
    (trace : String) (e : JsObject) (n k : ℕ) (s : Sender)
    → s.error_listeners ≡ suc k
    → s.producer_connecting ≡ false
    → (rounds trace e n s).error_listeners ≡ n + suc k
rounds-listeners trace e zero k s l c = omega (arith, l)
rounds-listeners trace e (suc n) k s l c =
    let (more, idle) = round-listeners trace e k s l c in
    omega (arith, rounds-listeners trace e n (suc k) (round trace e s) more idle)

-- A producer that has connected once and then sends an event after each of `n` errors has n + 1
-- listeners, so that the next error is emitted n + 1 times.
pub rounds-heard :
    (trace : String) (e : JsObject) (n : ℕ) (s : Sender)
    → s.error_listeners ≡ 1
    → s.producer_connecting ≡ false
    → let s' = rounds trace e n s in
      (s'.error_listeners ≡ n + 1)
      × (length (on_event_error e s').emitted ≡ n + 1 + length s'.emitted)
unfolding on_event_error
rounds-heard trace e n s l c =
    let count = rounds-listeners trace e n 0 s l c in
    let heard = hear_error-Hears (rounds trace e n s).error_listeners e (rounds trace e n s) in
    (count, omega (arith, count, heard.added))
