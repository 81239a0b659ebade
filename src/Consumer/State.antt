-- ===== src/Consumer/State.antt =====
-- The fields of `AbstractConsumer` in internal/kafka/consumer/abstract_consumer.ts that its methods
-- change or read, and what the consumer does to the outside: calls of librdkafka's client and of the
-- observer, newest first in `log`.
use chain_indexer_framework.Prelude.{ℕ, Bool, String, Option, List}
use chain_indexer_framework.Prelude.Int.{ℤ}
use chain_indexer_framework.Errors.Value.{JsObject}
use chain_indexer_framework.Queue.{Queue}

-- A Kafka message; after `deserialize` its value is the decoded one.
pub record Message : Type 0 where
  pub topic : String
  pub partition : ℤ
  pub offset : ℕ
  pub value : Option String

-- `IConsumerQueueObject`: the promise is there in the asynchronous consumer.
pub record Element : Type 0 where
  pub message : Message
  pub has_promise : Bool

pub data Action : Type 0 where
  pauses resumes handles commits : Message → Action
  seeks : (topic : String) (offset : ℕ) (partition : ℤ) → Action
  observes_error : JsObject → Action
  observes_closed : Action
  disconnects : Action
  connects : Action
  subscribes : List String → Action
  consumes : Action
  removes_listeners : Action
  listens : Action
  logs_error : JsObject → Action

pub record Consumer : Type 0 where
  pub max_buffer_length : ℕ
  pub max_retries : ℕ
  pub start_offsets : List (String × ℕ)
  pub topics : List String
  pub coders : List String
  pub consumer_paused : Bool
  pub consumer_connected : Bool
  pub consumer_connecting : Bool
  pub has_metadata : Bool
  pub has_observer : Bool
  pub seek_called : Bool
  pub queue_is_processing : Bool
  pub queue : Queue Element
  -- The local of the running `processQueue`, and the element whose promise it awaits.
  pub error_count : ℕ
  pub awaited : Option Element
  pub log : List Action

-- The optional entries of `IConsumerConfig` that the constructor takes out.
pub record ConsumerConfig : Type 0 where
  pub max_buffer_length : Option ℕ
  pub max_retries : Option ℕ
  pub start_offsets : List (String × ℕ)
