-- ===== src/Consumer/Receiving.antt =====
-- The receipt of a message in internal/kafka/consumer/abstract_consumer.ts: `onData` with `deserialize`,
-- the seek to a start offset, and the acceptance into the queue.
use chain_indexer_framework.Prelude.{
  ℕ, Bool, true, false, String, none, some, List, [], ◌∷◌, ltb, if◌then◌else◌,
}
use chain_indexer_framework.Prelude.Text.{str_eq}
use chain_indexer_framework.Errors.Convert.{kafka_create_unknown}
use chain_indexer_framework.Queue.{enqueue}
use chain_indexer_framework.Store.{Outcome, done, failed}
use chain_indexer_framework.Consumer.State.{Message, handles, seeks, Consumer}
use chain_indexer_framework.Consumer.Steps.{
  logged, handle_backpressure, on_error, new_element, process_queue,
}

-- `this.startOffsets[topic] || 0`
unfoldable pub start_offset : String → List (String × ℕ) → ℕ
start_offset topic [] = 0
start_offset topic ((t, offset) ∷ rest) = if str_eq t topic then offset else start_offset topic rest

-- `deserialize`: a message without a value is left as it is.
abbrev pub with_value : Message → Outcome String → Outcome Message
with_value message (done v) = done (record message { value = some v })
with_value message (failed e) = failed e

unfoldable pub deserialize : (String → String → Outcome String) → Message → Outcome Message
deserialize decode message = elim message.value [
  | none ↦ done message
  | some v ↦ with_value message (decode message.topic v)
]

abbrev pub after_seek : (trace : String) → Outcome (Unit {0}) → Consumer → Consumer
after_seek trace (done _) c = record c { seek_called = true }
after_seek trace (failed e) c = on_error (kafka_create_unknown trace e false) c

unfoldable pub skip_message : (trace : String) → Outcome (Unit {0}) → Message → Consumer → Consumer
skip_message trace seek message c =
    if c.seek_called
    then c
    else after_seek trace seek (
        logged (seeks message.topic (start_offset message.topic c.start_offsets) message.partition)
          c)

abbrev pub called_at_once : Bool → Message → Consumer → Consumer
called_at_once asynchronous message c = if asynchronous then logged (handles message) c else c

-- A message that is decoded enters the queue; a rejection of `processQueue` is not awaited.
unfoldable pub accept_message : (asynchronous : Bool) → Message → Consumer → Consumer
accept_message asynchronous message c =
    (process_queue (
      handle_backpressure message (
        called_at_once asynchronous message
          (record c { queue = enqueue (new_element asynchronous message) c.queue })))).0

abbrev pub after_decoding :
    (trace : String) → (asynchronous : Bool) → Outcome Message → Consumer → Consumer
after_decoding trace asynchronous (done message) c = accept_message asynchronous message c
after_decoding trace asynchronous (failed e) c = on_error (kafka_create_unknown trace e false) c

-- The "data" listener of `start`: `onData`, with its errors handed to `onError`.
unfoldable pub on_data :
    (trace : String)
    → (asynchronous : Bool) → (String → String → Outcome String)
    → (seek : Outcome (Unit {0})) → Message
    → Consumer
    → Consumer
on_data trace asynchronous decode seek message c =
    if ltb message.offset (start_offset message.topic c.start_offsets)
    then skip_message trace seek message c
    else after_decoding trace asynchronous (deserialize decode message) c
