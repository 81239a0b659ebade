-- ===== src/Errors/Conversion.antt =====
-- What the conversions of errors guarantee to the code that catches.
use chain_indexer_framework.Prelude.{
  Bool, true, false, String, Option, none, some, ◌≡◌, ◌≢◌, refl, inl, inr, or_default, Bool-cases,
}
use chain_indexer_framework.Prelude.Int.{ℤ, pos, eq_ℤ, eq_ℤ_iff}
use chain_indexer_framework.Errors.Codes
use chain_indexer_framework.Errors.Value.{
  Property, written, missing, undefined, value, read, Class, api_class, block_producer_class,
  event_consumer_class, kafka_class, JsObject, JsValue, js_undefined, object, is_base_error,
  is_librdkafka_error, create_error_object,
}
use chain_indexer_framework.Errors.Classes.{message_or_name, new_kafka_error}
use chain_indexer_framework.Errors.Convert.{
  place, unless_base, api_create_unknown, block_producer_create_unknown,
  event_consumer_create_unknown, code_or, kafka_name, kafka_unknown_code, kafka_convert,
  kafka_from_unknown, kafka_create_unknown,
}
use chain_indexer_framework.Errors.Converters.{
  Converter, convert, convert-base, convert_of_base, to_api, to_block_producer, to_event_consumer,
  to_kafka,
}

-- An error that one of the four `createUnknown` has converted is a `BaseError`, and a later
-- conversion by any of them returns it as it is: the first conversion fixes class, code and fatality.
pub convert-first_wins :
    (first later : Converter) (trace trace' : String) (e : JsValue)
    → (is_base_error (object (convert first trace e)) ≡ true)
      × (convert later trace' (object (convert first trace e)) ≡ convert first trace e)
convert-first_wins first later trace trace' e =
    let is_base = convert-base first trace e in
    (is_base, convert_of_base later trace' (convert first trace e) is_base)

abbrev pub class_of : Converter → Class
class_of (to_api l) = api_class
class_of (to_block_producer l) = block_producer_class
class_of (to_event_consumer l) = event_consumer_class
class_of (to_kafka p) = kafka_class

abbrev pub code_of : Converter → ℤ
code_of (to_api l) = Codes.server_error
code_of (to_block_producer l) = Codes.unknown_block_producer_err
code_of (to_event_consumer l) = Codes.unknown_event_consumer_err
code_of (to_kafka p) = kafka_unknown_code p

abbrev pub name_of : Converter → String
name_of (to_api l) = "Internal server error"
name_of (to_block_producer l) = "Block producer error"
name_of (to_event_consumer l) = "Event Consumer Error"
name_of (to_kafka p) = kafka_name p

abbrev pub origin_of : Converter → String
origin_of (to_api l) = place l
origin_of (to_block_producer l) = place l
origin_of (to_event_consumer l) = place l
origin_of (to_kafka p) = "local"

-- Only `KafkaError.createUnknown` treats the errors of librdkafka apart.
abbrev pub TreatsAsUnknown : Converter → JsValue → Type 0
TreatsAsUnknown (to_kafka p) e = is_librdkafka_error e ≡ false
TreatsAsUnknown other e = Unit {0}

-- The fields that mark an error of unknown cause.
record MarksUnknown (c : Converter) (cause made : JsObject) : Type 0 where
  class : made.class ≡ class_of c
  name : made.name ≡ value (name_of c)
  code : made.code ≡ value (code_of c)
  is_fatal : made.is_fatal ≡ value true
  message : made.message ≡ value (message_or_name (read cause.message) (name_of c))
  origin : made.origin ≡ value (origin_of c)
  stack : read made.stack ≡ read cause.stack

read-written {ℓ} : {A : Type ℓ} (o : Option A) → read (written o) ≡ o
read-written none = refl
read-written (some a) = refl

unless_base_of_other :
    (e : JsValue) (made : JsObject) → is_base_error e ≡ false → unless_base e made ≡ made
unless_base_of_other (object o) made h = rw h refl
unless_base_of_other js_undefined made h = refl
unless_base_of_other e made h = refl

kafka_convert_of_other :
    (trace : String) (e : JsValue) (p : Bool)
    → is_librdkafka_error e ≡ false
    → kafka_convert trace e p ≡ kafka_from_unknown trace e p
kafka_convert_of_other trace (object o) p h = rw h refl
kafka_convert_of_other trace js_undefined p h = refl
kafka_convert_of_other trace e p h = refl

kafka_from_unknown-MarksUnknown :
    (trace : String) (e : JsValue) (p : Bool)
    → MarksUnknown (to_kafka p) (create_error_object trace e) (kafka_from_unknown trace e p)
unfolding new_kafka_error
kafka_from_unknown-MarksUnknown trace e p = record {
  class = refl;
  name = refl;
  code = refl;
  is_fatal = refl;
  message = refl;
  origin = refl;
  stack = read-written _;
}

-- An error that is no `BaseError` (nor, for `KafkaError.createUnknown`, an error of librdkafka) is
-- converted into a fatal error of the converter's class, name, code and origin, which keeps the stack
-- and a non-empty message of the error object that `createErrorObject` gives.
convert-MarksUnknown :
    (c : Converter) (trace : String) (e : JsValue)
    → is_base_error e ≡ false
    → TreatsAsUnknown c e
    → MarksUnknown c (create_error_object trace e) (convert c trace e)
convert-MarksUnknown (to_api l) trace e h k =
    unfold api_create_unknown in
    rw (unless_base_of_other e _ h) (record {
      class = refl;
      name = refl;
      code = refl;
      is_fatal = refl;
      message = refl;
      origin = refl;
      stack = read-written _;
    })
convert-MarksUnknown (to_block_producer l) trace e h k =
    unfold block_producer_create_unknown in
    rw (unless_base_of_other e _ h) (record {
      class = refl;
      name = refl;
      code = refl;
      is_fatal = refl;
      message = refl;
      origin = refl;
      stack = read-written _;
    })
convert-MarksUnknown (to_event_consumer l) trace e h k =
    unfold event_consumer_create_unknown in
    rw (unless_base_of_other e _ h) (record {
      class = refl;
      name = refl;
      code = refl;
      is_fatal = refl;
      message = refl;
      origin = refl;
      stack = read-written _;
    })
convert-MarksUnknown (to_kafka p) trace e h k =
    unfold kafka_create_unknown in
    rw (unless_base_of_other e _ h, kafka_convert_of_other trace e p k)
      (kafka_from_unknown-MarksUnknown trace e p)

code_or-ne_zero : (c : Property ℤ) (d : ℤ) → d ≢ pos 0 → code_or c d ≢ pos 0
code_or-ne_zero (value c) d h = elim (Bool-cases (eq_ℤ c (pos 0))) [
  | inl e ↦ rw e h
  | inr e ↦ rw e (λ z. cc (e, (eq_ℤ_iff c (pos 0)).1 z))
]
code_or-ne_zero missing d h = h
code_or-ne_zero undefined d h = h

kafka_unknown_code-ne_zero : (p : Bool) → kafka_unknown_code p ≢ pos 0
kafka_unknown_code-ne_zero true = λ e. cc
kafka_unknown_code-ne_zero false = λ e. cc

-- An error of librdkafka that is no `BaseError` becomes a Kafka error that is fatal exactly if the
-- error said that it is, with a code other than 0 and the error's stack; its origin is the error's, or
-- "local" where the error has none.
kafka_create_unknown-of_lib_error :
    (trace : String) (o : JsObject) (p : Bool)
    → is_base_error (object o) ≡ false
    → is_librdkafka_error (object o) ≡ true
    → let made = kafka_create_unknown trace (object o) p in
      (made.class ≡ kafka_class)
      × (made.is_fatal ≡ value (or_default (read o.is_fatal) false))
      × ((c : ℤ) × (made.code ≡ value c) × (c ≢ pos 0))
      × (made.origin ≡ value (or_default (read o.origin) "local"))
      × (read made.stack ≡ read o.stack)
kafka_create_unknown-of_lib_error trace o p h k =
    unfold kafka_create_unknown in
    rw (h, k)
      (
        refl,
        refl,
        (_, refl, code_or-ne_zero o.code _ (kafka_unknown_code-ne_zero p)),
        refl,
        read-written _,
      )
