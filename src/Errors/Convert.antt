-- ===== src/Errors/Convert.antt =====
-- `createUnknown` of each class, and `KafkaError.convertLibError`. The trace is the stack that the
-- engine records where `createErrorObject` makes an error.
use chain_indexer_framework.Prelude.{Bool, true, String, none, some, if◌then◌else◌}
use chain_indexer_framework.Prelude.Int.{ℤ, pos, eq_ℤ}
use chain_indexer_framework.Errors.Codes
use chain_indexer_framework.Errors.Value.{
  Property, value, read, JsObject, JsValue, object, is_base_error, is_librdkafka_error,
  create_error_object,
}
use chain_indexer_framework.Errors.Classes.{
  Arguments, new_api_error, new_block_producer_error, new_event_consumer_error, new_kafka_error,
}

abbrev pub place : Bool → String
place is_local = if is_local then "local" else "remote"

-- What the three classes hand to their constructor for an unknown error.
abbrev pub unknown_arguments : (name : String) (code : ℤ) → Bool → JsObject → Arguments
unknown_arguments name code is_local e = record {
  name = some name;
  code = some code;
  is_fatal = some true;
  message = read e.message;
  origin = some (place is_local);
  stack = read e.stack;
}

-- An error that is a `BaseError` already is passed on; `build` makes the new one.
abbrev pub unless_base : JsValue → JsObject → JsObject
unless_base (object o) made = if is_base_error (object o) then o else made
unless_base other made = made

unfoldable pub api_create_unknown : (trace : String) → JsValue → Bool → JsObject
unfolding is_base_error create_error_object new_api_error
api_create_unknown trace error is_local = unless_base error (
    new_api_error (
      unknown_arguments "Internal server error" Codes.server_error is_local
        (create_error_object trace error)))

unfoldable pub block_producer_create_unknown : (trace : String) → JsValue → Bool → JsObject
unfolding is_base_error create_error_object new_block_producer_error
block_producer_create_unknown trace error is_local = unless_base error (
    new_block_producer_error (
      unknown_arguments "Block producer error" Codes.unknown_block_producer_err is_local
        (create_error_object trace error)))

unfoldable pub event_consumer_create_unknown : (trace : String) → JsValue → Bool → JsObject
unfolding is_base_error create_error_object new_event_consumer_error
event_consumer_create_unknown trace error is_local = unless_base error (
    new_event_consumer_error (
      unknown_arguments "Event Consumer Error" Codes.unknown_event_consumer_err is_local
        (create_error_object trace error)))

abbrev pub kafka_name : Bool → String
kafka_name is_producer = if is_producer then "Kafka producer error" else "Kafka consumer error"

abbrev pub kafka_unknown_code : Bool → ℤ
kafka_unknown_code is_producer =
    if is_producer then Codes.unknown_producer_err else Codes.unknown_consumer_err

-- `error.code || d`
abbrev pub code_or : Property ℤ → ℤ → ℤ
code_or (value c) d = if eq_ℤ c (pos 0) then d else c
code_or other d = d

unfoldable pub convert_lib_error : JsObject → Bool → JsObject
unfolding new_kafka_error
convert_lib_error error is_producer =
    new_kafka_error (code_or error.code (kafka_unknown_code is_producer)) (record {
      name = some (kafka_name is_producer);
      code = none;
      is_fatal = read error.is_fatal;
      message = read error.message;
      origin = read error.origin;
      stack = read error.stack;
    })

-- The branch for an error that is no `BaseError`.
abbrev pub kafka_from_unknown : (trace : String) → JsValue → Bool → JsObject
kafka_from_unknown trace error is_producer =
    let e = create_error_object trace error in
    new_kafka_error (kafka_unknown_code is_producer) (record {
      name = some (kafka_name is_producer);
      code = none;
      is_fatal = some true;
      message = read e.message;
      origin = some "local";
      stack = read e.stack;
    })

abbrev pub kafka_convert : (trace : String) → JsValue → Bool → JsObject
kafka_convert trace (object o) is_producer =
    if is_librdkafka_error (object o)
    then convert_lib_error o is_producer
    else kafka_from_unknown trace (object o) is_producer
kafka_convert trace error is_producer = kafka_from_unknown trace error is_producer

unfoldable pub kafka_create_unknown : (trace : String) → JsValue → Bool → JsObject
unfolding is_base_error is_librdkafka_error convert_lib_error create_error_object new_kafka_error
kafka_create_unknown trace error is_producer =
    unless_base error (kafka_convert trace error is_producer)
