-- ===== src/Settings/Producers.antt =====
-- The constructors in internal/kafka/producer and internal/block_producers/block_producer.ts, down to
-- the configuration that they hand to node-rdkafka. The coder, which they keep, is left out.
use chain_indexer_framework.Prelude.{true, [], ◌∷◌}
use chain_indexer_framework.Prelude.Int.{pos, negsuc}
use chain_indexer_framework.Settings.{
  Value, whole, written, flag, Config, read, delete, delete_all, object_assign, literal, or_else,
}

-- What the constructor of `AbstractProducer` keeps, what it passes to node-rdkafka, and the object that
-- it was given, as it leaves it.
pub record ProducerSettings : Type 0 where
  pub poll_interval : Value
  pub connection_timeout : Value
  pub flush_timeout : Value
  pub topic : Value
  pub kafka : Config
  pub left : Config

abbrev pub producer_defaults : Config
producer_defaults = literal (
    ("bootstrap.servers", written "localhost:9092")
    ∷ ("dr_cb", flag true)
    ∷ ("enable.idempotence", flag true)
    ∷ ("acks", whole (negsuc 0))
    ∷ [])

unfoldable pub new_abstract_producer : Config → ProducerSettings
unfolding read delete_all object_assign literal or_else
new_abstract_producer config =
    let left =
      delete_all ("pollInterval" ∷ "connectionTimeout" ∷ "flushTimeout" ∷ "topic" ∷ []) config in
    record {
      poll_interval = or_else (read "pollInterval" config) (whole (pos 1000));
      connection_timeout = or_else (read "connectionTimeout" config) (whole (pos 10000));
      flush_timeout = or_else (read "flushTimeout" config) (whole (pos 10000));
      topic = read "topic" config;
      kafka = object_assign producer_defaults left;
      left = left;
    }

-- `AsynchronousProducer`, and `SynchronousProducer` with its time to wait for a delivery.
unfoldable pub new_asynchronous_producer : Config → ProducerSettings
unfolding new_abstract_producer
new_asynchronous_producer config = new_abstract_producer config

unfoldable pub new_synchronous_producer : Config → Value × ProducerSettings
unfolding new_abstract_producer read delete or_else
new_synchronous_producer config = (
  or_else (read "deliveryTimeout" config) (whole (pos 10000)),
  new_abstract_producer (delete "deliveryTimeout" config),
)

-- The internal `BlockProducer`: it passes a new object on, so that the one it was given keeps its
-- entries.
unfoldable pub new_block_producer : Config → ProducerSettings
unfolding new_asynchronous_producer object_assign literal
new_block_producer config =
    record (new_asynchronous_producer
      (object_assign (literal (("message.max.bytes", whole (pos 26214400)) ∷ [])) config)) {
        left = config;
      }
