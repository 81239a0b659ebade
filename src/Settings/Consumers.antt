-- ===== src/Settings/Consumers.antt =====
-- The constructor of internal/kafka/consumer/abstract_consumer.ts, down to the two configurations that
-- it hands to node-rdkafka, and what it keeps.
use chain_indexer_framework.Prelude.{true, false, [], ◌∷◌, if◌then◌else◌}
use chain_indexer_framework.Prelude.Int.{pos, eq_ℤ}
use chain_indexer_framework.Settings.{
  Value, whole, written, flag, Config, read, delete_all, object_assign, literal, or_else,
}

pub record ConsumerSettings : Type 0 where
  pub max_buffer_length : Value
  pub max_retries : Value
  pub connection_timeout : Value
  pub kafka : Config
  pub topic_config : Config
  pub left : Config

abbrev pub consumer_defaults : Config
consumer_defaults = literal (
    ("debug", written "cgrp")
    ∷ ("bootstrap.servers", written "localhost:9092")
    ∷ ("enable.auto.commit", flag false)
    ∷ ("enable.auto.offset.store", flag false)
    ∷ ("event_cb", flag true)
    ∷ ("message.max.bytes", whole (pos 26214400))
    ∷ ("fetch.message.max.bytes", whole (pos 26214400))
    ∷ ("queued.max.messages.kbytes", whole (pos 25000))
    ∷ ("isolation.level", written "read_uncommitted")
    ∷ [])

-- `maxRetries || maxRetries === 0 ? maxRetries : 10`
unfoldable pub retries_or : Value → (d : Value) → Value
unfolding or_else
retries_or (whole n) d = if eq_ℤ n (pos 0) then whole n else or_else (whole n) d
retries_or v d = or_else v d

-- `topicConfig`, an object, is an argument of its own; without one it is the empty object.
unfoldable pub new_abstract_consumer : (topic_config config : Config) → ConsumerSettings
unfolding read delete_all object_assign literal or_else retries_or
new_abstract_consumer topic_config config =
    let left =
      delete_all
        ("maxBufferLength" ∷ "maxRetries" ∷ "connectionTimeout" ∷ "topicConfig" ∷ "startOffsets"
          ∷ [])
        config in
    record {
      max_buffer_length = or_else (read "maxBufferLength" config) (whole (pos 100));
      max_retries = retries_or (read "maxRetries" config) (whole (pos 10));
      connection_timeout = or_else (read "connectionTimeout" config) (whole (pos 10000));
      kafka = object_assign consumer_defaults left;
      topic_config =
          object_assign (literal (("auto.offset.reset", written "earliest") ∷ [])) topic_config;
      left = left;
    }
