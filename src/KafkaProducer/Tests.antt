-- ===== src/KafkaProducer/Tests.antt =====
-- Concrete deliveries.
use chain_indexer_framework.Prelude.{◌≡◌, refl, false, none, some, List, [], ◌∷◌}
use chain_indexer_framework.Errors.Value.{object, text}
use chain_indexer_framework.Store.{done, failed}
use chain_indexer_framework.KafkaProducer.Sending.{
  Sender, send_to_internal_producer, start_producer, connect_to_broker, on_kafka_error,
}
use chain_indexer_framework.KafkaProducer.Delivery.{
  Report, produce_event, on_report, on_timer, on_sent, timed_out,
}
use chain_indexer_framework.KafkaProducer.Confirmed.{
  Event, reports, sends, run, Confirms, produce_event-Confirms, run_reports, send_failure_masked,
}
use chain_indexer_framework.Prelude.{◌+◌, length, true}
use chain_indexer_framework.Errors.Value.{JsObject, new_error}
use chain_indexer_framework.KafkaProducer.Sending.{on_event_error}
use chain_indexer_framework.KafkaProducer.Listeners.{rounds, rounds-heard}
use chain_indexer_framework.Prelude.{◌≤◌}
use chain_indexer_framework.KafkaProducer.Connecting.{
  new_connecting, ConnectionEvent, calls_start, calls_back, loses_connection, run_connection,
  call_start, on_connect_answer, on_connection_lost,
}
use chain_indexer_framework.KafkaProducer.Sharing.{Shares}
use chain_indexer_framework.KafkaProducer.Counting.{starts, answers, under_way, connection-Shares}

abbrev own : Report
own = record { opaque = some 7; topic = "blocks" }

abbrev course : List Event
course = sends (done tt) ∷ reports none (record own { opaque = some 6 }) ∷ reports none own ∷ []

produce_event-Confirms_example :
    Confirms (some "blocks") 7 (run course (produce_event (some "blocks") 7))
produce_event-Confirms_example = produce_event-Confirms (some "blocks") 7 course

resolved_with_own : (run course (produce_event (some "blocks") 7)).settled ≡ some (done own)
unfolding produce_event on_report on_sent
resolved_with_own = refl

send_failure_masked_example :
    let d =
      run_reports ((none, own) ∷ []) (on_sent (failed (text "full")) (produce_event none 7)) in
    (d.settled ≡ none) × ((on_timer "late" d).settled ≡ some (failed (object (timed_out "late"))))
send_failure_masked_example = send_failure_masked none 7 (text "full") "late" ((none, own) ∷ [])

abbrev unconnected : Sender
unconnected = record {
  producer_connected = false;
  producer_connecting = false;
  error_listeners = 0;
  disconnected_listeners = 0;
  emitted = [];
}

-- A full queue: the next call connects again.
full_queue_disconnects :
    let s = (send_to_internal_producer "at" none (failed (text "full")) unconnected).0 in
    (send_to_internal_producer "at" none (done tt) s).0.error_listeners ≡ 2
unfolding send_to_internal_producer start_producer connect_to_broker on_kafka_error
full_queue_disconnects = refl

abbrev transport_failure : JsObject
transport_failure = new_error "at" "Local: Broker transport failure"

abbrev connected_once : Sender
connected_once = record unconnected { producer_connected = true; error_listeners = 1 }

rounds-heard_example :
    let s' = rounds "at" transport_failure 2 connected_once in
    (s'.error_listeners ≡ 3)
    × (length (on_event_error transport_failure s').emitted ≡ 3 + length s'.emitted)
rounds-heard_example = rounds-heard "at" transport_failure 2 connected_once refl refl

-- Two calls share the first connection, which fails; a third one connects again.
abbrev overlapping : List (ConnectionEvent "at")
overlapping =
    calls_start 1
    ∷ calls_start 2
    ∷ calls_back (some (text "down"))
    ∷ calls_start 3
    ∷ calls_back none
    ∷ loses_connection
    ∷ []

connection-Shares_example :
    let c = run_connection "at" overlapping new_connecting in
    Shares c
    × (length c.waiting + length c.ended ≡ starts overlapping)
    × (c.connects ≤ answers overlapping + under_way c)
connection-Shares_example = connection-Shares "at" overlapping

connects_twice : (run_connection "at" overlapping new_connecting).connects ≡ 2
unfolding new_connecting call_start on_connect_answer on_connection_lost
connects_twice = refl
