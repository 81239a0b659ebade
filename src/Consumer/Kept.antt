-- ===== src/Consumer/Kept.antt =====
-- Steps of internal/kafka/consumer that leave the processing of the buffer as it is.
use chain_indexer_framework.Prelude.{
  ◌≡◌, refl, ◌∙◌, inl, inr, Bool, true, false, String, Option, none, some, arith, Bool-cases, ltb,
}
use chain_indexer_framework.Errors.Value.{JsObject, JsValue}
use chain_indexer_framework.Queue.{enqueue}
use chain_indexer_framework.Store.{Outcome, done, failed}
use chain_indexer_framework.Consumer.State.{Message, Consumer}
use chain_indexer_framework.Consumer.Steps.{
  on_error, on_disconnect, stop, process_queue, new_element,
}
use chain_indexer_framework.Consumer.Receiving.{
  accept_message, after_decoding, after_seek, skip_message, on_data, deserialize, start_offset,
  called_at_once,
}
use chain_indexer_framework.Consumer.Connection.{
  connect_to_broker, create_connection, create_subscription, start,
}
use chain_indexer_framework.Consumer.Frame.{
  Frame, Frame-refl, Frame-trans, handle_backpressure-Frame,
}

pub on_error-Frame : (e : JsObject) (c : Consumer) → Frame c (on_error e c)
unfolding on_error
on_error-Frame e c = record {
  processing = ground arith;
  awaited = ground arith;
  commits_kept = ground arith;
}

pub on_disconnect-Frame : (c : Consumer) → Frame c (on_disconnect c)
unfolding on_disconnect
on_disconnect-Frame c = record {
  processing = ground arith;
  awaited = ground arith;
  commits_kept = ground arith;
}

pub stop-Frame : (trace : String) (o : Option JsValue) (c : Consumer) → Frame c (stop trace o c)
unfolding stop on_disconnect
stop-Frame trace none c = on_disconnect-Frame c
stop-Frame trace (some e) c = record {
  processing = ground arith;
  awaited = ground arith;
  commits_kept = ground arith;
}

pub start-Frame :
    (trace : String) (b : Bool) (o : Option JsObject) (c : Consumer) → Frame c (start trace b o c).0
unfolding start create_subscription create_connection connect_to_broker
start-Frame trace b none c = record {
  processing = ground arith;
  awaited = ground arith;
  commits_kept = ground arith;
}
start-Frame trace b (some e) c = record {
  processing = ground arith;
  awaited = ground arith;
  commits_kept = ground arith;
}

after_seek-Frame :
    (trace : String) (o : Outcome (Unit {0})) (c : Consumer) → Frame c (after_seek trace o c)
after_seek-Frame trace (done u) c = record {
  processing = refl;
  awaited = refl;
  commits_kept = refl;
}
after_seek-Frame trace (failed e) c = on_error-Frame _ c

skip_message-Frame :
    (trace : String) (o : Outcome (Unit {0})) (message : Message) (c : Consumer)
    → Frame c (skip_message trace o message c)
unfolding skip_message
skip_message-Frame trace o message c = elim (Bool-cases c.seek_called) [
  | inl y ↦ rw y (Frame-refl _)
  | inr n ↦ rw n (
      Frame-trans (record { processing = refl; awaited = refl; commits_kept = refl })
        (after_seek-Frame trace o _))
]

process_queue-Frame : (c : Consumer) → c.queue_is_processing ≡ true → Frame c (process_queue c).0
unfolding process_queue
process_queue-Frame c on = record {
  processing = ground (arith, on);
  awaited = ground (arith, on);
  commits_kept = ground (arith, on);
}

called_at_once-Frame :
    (asynchronous : Bool) (message : Message) (c : Consumer)
    → Frame c (called_at_once asynchronous message c)
called_at_once-Frame true message c = record {
  processing = refl;
  awaited = refl;
  commits_kept = refl;
}
called_at_once-Frame false message c = Frame-refl c

accept_message-Frame :
    (asynchronous : Bool) (message : Message) (c : Consumer)
    → c.queue_is_processing ≡ true
    → Frame c (accept_message asynchronous message c)
unfolding accept_message
accept_message-Frame asynchronous message c on =
    let queued : Consumer = record c {
      queue = enqueue (new_element asynchronous message) c.queue;
    } in
    let called = called_at_once-Frame asynchronous message queued in
    let pressed =
      (handle_backpressure-Frame message (called_at_once asynchronous message queued)).0 in
    let before = Frame-trans called pressed in
    Frame-trans
      (record {
        processing = before.processing;
        awaited = before.awaited;
        commits_kept = before.commits_kept;
      })
      (process_queue-Frame _ (before.processing ∙ on))

after_decoding-Frame :
    (trace : String) (asynchronous : Bool) (o : Outcome Message) (c : Consumer)
    → c.queue_is_processing ≡ true
    → Frame c (after_decoding trace asynchronous o c)
after_decoding-Frame trace asynchronous (done message) c on =
    accept_message-Frame asynchronous message c on
after_decoding-Frame trace asynchronous (failed e) c on = on_error-Frame _ c

pub on_data-Frame :
    (trace : String) (asynchronous : Bool) (decode : String → String → Outcome String)
    (seek : Outcome (Unit {0})) (message : Message) (c : Consumer)
    → c.queue_is_processing ≡ true
    → Frame c (on_data trace asynchronous decode seek message c)
unfolding on_data
on_data-Frame trace asynchronous decode seek message c on =
    elim (Bool-cases (ltb message.offset (start_offset message.topic c.start_offsets))) [
      | inl y ↦ rw y (skip_message-Frame trace seek message c)
      | inr n ↦ rw n (after_decoding-Frame trace asynchronous (deserialize decode message) c on)
    ]
