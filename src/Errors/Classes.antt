-- ===== src/Errors/Classes.antt =====
-- The constructors: internal/errors/base_error.ts, api_error.ts, block_producer_error.ts,
-- coder_error.ts, event_consumer_error.ts and kafka_error.ts. An argument that is left out is `none`.
use chain_indexer_framework.Prelude.{
  Bool, false, String, Option, none, some, if◌then◌else◌, or_default,
}
use chain_indexer_framework.Prelude.Int.{ℤ}
use chain_indexer_framework.Prelude.Text.{str_eq}
use chain_indexer_framework.Errors.Codes
use chain_indexer_framework.Errors.Value.{
  value, written, Class, base_class, api_class, block_producer_class, coder_class,
  event_consumer_class, kafka_class, JsObject,
}

-- `message || name`
abbrev pub message_or_name : Option String → String → String
message_or_name none name = name
message_or_name (some m) name = if str_eq m "" then name else m

-- The parameter properties assign `stack` whether or not it is given.
unfoldable pub new_base_error :
    String → ℤ → Option Bool → Option String → Option String → Option String → JsObject
new_base_error name code is_fatal message origin stack = record {
  class = base_class;
  name = value name;
  code = value code;
  is_fatal = value (or_default is_fatal false);
  message = value (message_or_name message name);
  origin = written origin;
  stack = written stack;
  identifier = value Codes.base_error;
}

-- The arguments of a subclass's constructor, in its order.
pub record Arguments : Type 0 where
  pub name : Option String
  pub code : Option ℤ
  pub is_fatal : Option Bool
  pub message : Option String
  pub origin : Option String
  pub stack : Option String

-- The shape of `super(name, code, isFatal, message, origin, stack)` with the defaults put in.
abbrev pub subclass : Class → (name : String) (code : ℤ) → Arguments → JsObject
subclass class name code a =
    record (new_base_error (or_default a.name name) (or_default a.code code)
      (some (or_default a.is_fatal false)) a.message (some (or_default a.origin "local")) a.stack) {
        class = class;
      }

unfoldable pub new_api_error : Arguments → JsObject
unfolding new_base_error
new_api_error a = subclass api_class "Internal server error" Codes.server_error a

unfoldable pub new_block_producer_error : Arguments → JsObject
unfolding new_base_error
new_block_producer_error a =
    subclass block_producer_class "Block producer error" Codes.unknown_block_producer_err a

unfoldable pub new_event_consumer_error : Arguments → JsObject
unfolding new_base_error
new_event_consumer_error a =
    subclass event_consumer_class "Event Consumer Error" Codes.unknown_event_consumer_err a

-- The origin of a coder error is always "local".
unfoldable pub new_coder_error : Arguments → JsObject
unfolding new_base_error
new_coder_error a =
    subclass coder_class "Coder Error" Codes.unknown_coder_err (record a { origin = some "local" })

-- The code of a Kafka error has no default.
unfoldable pub new_kafka_error : ℤ → Arguments → JsObject
unfolding new_base_error
new_kafka_error code a = subclass kafka_class "Kafka Error" code (record a { code = some code })
