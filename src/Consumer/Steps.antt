-- ===== src/Consumer/Steps.antt =====
-- The methods of internal/kafka/consumer/abstract_consumer.ts around a message, with `enqueue` and
-- `retryPromise` of the two subclasses. What an awaited or called party outside answers is an
-- argument; `trace` is the stack that the engine records.
use chain_indexer_framework.Prelude.{
  ℕ, zero, suc, ◌+◌, Bool, true, false, not, ◌&&◌, ◌||◌, String, Option, none, some, List, [], ◌∷◌,
  ltb, leb, ◌==◌, if◌then◌else◌, or_default,
}
use chain_indexer_framework.Errors.Codes
use chain_indexer_framework.Errors.Value.{JsObject, JsValue, object, Property, value, is_base_error}
use chain_indexer_framework.Errors.Classes.{new_kafka_error}
use chain_indexer_framework.Errors.Convert.{kafka_create_unknown}
use chain_indexer_framework.Queue.{new_queue, get_length, is_empty, shift, front, clear}
use chain_indexer_framework.Store.{Outcome, done, failed}
use chain_indexer_framework.Consumer.State.{
  Message, Element, Action, pauses, resumes, handles, commits, observes_error, observes_closed,
  disconnects, removes_listeners, logs_error, Consumer, ConsumerConfig,
}

abbrev pub logged : Action → Consumer → Consumer
logged a c = record c { log = a ∷ c.log }

-- `n || d` on an optional number.
abbrev pub positive_or : Option ℕ → ℕ → ℕ
positive_or none d = d
positive_or (some n) d = if n == 0 then d else n

-- The constructor, over topics and the topics that have a coder.
unfoldable pub new_consumer : (topics coders : List String) → ConsumerConfig → Consumer
new_consumer topics coders config = record {
  max_buffer_length = positive_or config.max_buffer_length 100;
  max_retries = or_default config.max_retries 10;
  start_offsets = config.start_offsets;
  topics = topics;
  coders = coders;
  consumer_paused = false;
  consumer_connected = false;
  consumer_connecting = false;
  has_metadata = false;
  has_observer = false;
  seek_called = false;
  queue_is_processing = false;
  queue = new_queue;
  error_count = 0;
  awaited = none;
  log = [];
}

unfoldable pub handle_backpressure : Message → Consumer → Consumer
handle_backpressure message c =
    if not c.consumer_paused && leb c.max_buffer_length (get_length c.queue)
    then logged (pauses message) (record c { consumer_paused = true })
    else if c.consumer_paused && ltb (get_length c.queue) c.max_buffer_length
    then logged (resumes message) (record c { consumer_paused = false })
    else c

-- `error.isFatal`, where a missing value is falsy.
abbrev pub holds_true : Property Bool → Bool
holds_true (value b) = b
holds_true other = false

abbrev pub is_fatal_error : JsObject → Bool
is_fatal_error e = holds_true e.is_fatal

unfoldable pub on_disconnect : Consumer → Consumer
on_disconnect c =
    if c.consumer_connected || (c.has_metadata || not (is_empty c.queue))
    then record c {
      queue = (clear c.queue).1;
      has_metadata = false;
      consumer_connected = false;
      log = removes_listeners ∷ (if c.has_observer then observes_closed ∷ c.log else c.log);
    }
    else c

-- `stop`, with what `disconnect` calls back.
unfoldable pub stop : (trace : String) → Option JsValue → Consumer → Consumer
unfolding on_disconnect
stop trace none c = on_disconnect c
stop trace (some e) c = on_disconnect (logged (logs_error (kafka_create_unknown trace e false)) c)

abbrev pub tell_observer : JsObject → Consumer → Consumer
tell_observer e c = if c.has_observer then logged (observes_error e) c else c

-- `disconnect` calls back later: here it is noted, and `stop` is its callback.
unfoldable pub on_error : JsObject → Consumer → Consumer
on_error e c =
    if is_fatal_error e
    then tell_observer e (logged disconnects (record c { queue = (clear c.queue).1 }))
    else tell_observer e c

-- The attempts of `commitMessage`, by the retries left, `maxRetries - errorCount`.
unfoldable pub safe_commit_message :
    (trace : String) → (ℕ → Outcome (Unit {0})) → Message → ℕ → Consumer → Consumer
safe_commit_message trace commit message zero c = elim (commit zero) [
  | done _ ↦ logged (commits message) c
  | failed e ↦ on_error (kafka_create_unknown trace e false) c
]
safe_commit_message trace commit message (suc left) c = elim (commit (suc left)) [
  | done _ ↦ logged (commits message) c
  | failed e ↦ safe_commit_message trace commit message left c
]

-- `enqueue` of the two subclasses: the asynchronous one calls the observer at once.
unfoldable pub new_element : (asynchronous : Bool) → Message → Element
new_element asynchronous message = record { message = message; has_promise = asynchronous }

abbrev pub called_observer : Element → Consumer → Consumer
called_observer element c = if element.has_promise then c else logged (handles element.message) c

abbrev pub await_front : Option Element → Consumer → Consumer
await_front none c = c
await_front (some element) c = called_observer element (record c { awaited = some element })

-- The test of the `while` loop of `processQueue`, and a round of it up to its `await`.
unfoldable pub queue_loop : Consumer → Consumer
queue_loop c =
    if is_empty c.queue
    then record c { queue_is_processing = false; awaited = none }
    else await_front (front c.queue) c

pub observer_invalid : JsObject
unfolding new_kafka_error
observer_invalid = new_kafka_error Codes.consumer_observer_invalid (record {
  name = some "Kafka Consumer Error";
  code = none;
  is_fatal = some true;
  message = some "Observer is not set";
  origin = some "local";
  stack = none;
})

-- `processQueue` up to its first `await`, with what it rejects with.
unfoldable pub process_queue : Consumer → Consumer × Option JsObject
process_queue c =
    if not c.has_observer
    then (c, some observer_invalid)
    else if c.queue_is_processing
    then (c, none)
    else (queue_loop (record c { error_count = 0; queue_is_processing = true }), none)

-- `errorCount > this.maxRetries || (isBaseError(error) && error.isFatal)`, after the increment.
abbrev pub fatal_value : JsValue → Bool
fatal_value (object o) = is_base_error (object o) && is_fatal_error o
fatal_value other = false

abbrev pub gives_up : Consumer → JsValue → Bool
gives_up c e = ltb c.max_retries (c.error_count + 1) || fatal_value e

-- The rest of the `try` block.
unfoldable pub finish_element :
    (trace : String) → (ℕ → Outcome (Unit {0})) → Element → Consumer → Consumer
finish_element trace commit element c =
    let committed = safe_commit_message trace commit element.message c.max_retries c in
    let shifted = record committed { queue = (shift committed.queue).1 } in
    queue_loop (record (handle_backpressure element.message shifted) { error_count = 0 })

-- The `catch` block. It returns without a reset of `queueIsProcessing`.
unfoldable pub fail_element : (trace : String) → JsValue → Consumer → Consumer
fail_element trace e c =
    if gives_up c e
    then on_error (kafka_create_unknown trace e false)
        (record c { error_count = c.error_count + 1; awaited = none })
    else queue_loop (record c { error_count = c.error_count + 1 })

abbrev pub settle_element :
    (trace : String) → (ℕ → Outcome (Unit {0})) → Element → Outcome (Unit {0}) → Consumer → Consumer
settle_element trace commit element (done _) c = finish_element trace commit element c
settle_element trace commit element (failed e) c = fail_element trace e c

abbrev pub settle :
    (trace : String)
    → (ℕ → Outcome (Unit {0}))
    → Option Element
    → Outcome (Unit {0})
    → Consumer
    → Consumer
settle trace commit none o c = c
settle trace commit (some element) o c = settle_element trace commit element o c

-- The awaited promise of `processQueue` settles.
unfoldable pub on_settled :
    (trace : String) → (ℕ → Outcome (Unit {0})) → Outcome (Unit {0}) → Consumer → Consumer
on_settled trace commit o c = settle trace commit c.awaited o c
