-- ===== src/Errors/Converters.antt =====
-- The four `createUnknown` of internal/errors as one function, which always gives a `BaseError`.
use chain_indexer_framework.Prelude.{Bool, true, String, ◌≡◌, refl, arith}
use chain_indexer_framework.Errors.Value.{JsObject, JsValue, js_undefined, object, is_base_error}
use chain_indexer_framework.Errors.Convert.{
  unless_base, api_create_unknown, block_producer_create_unknown, event_consumer_create_unknown,
  kafka_convert, kafka_create_unknown,
}

-- The four conversions, with their second argument.
pub data Converter : Type 0 where
  to_api to_block_producer to_event_consumer to_kafka : Bool → Converter

abbrev pub convert : Converter → (trace : String) → JsValue → JsObject
convert (to_api l) trace e = api_create_unknown trace e l
convert (to_block_producer l) trace e = block_producer_create_unknown trace e l
convert (to_event_consumer l) trace e = event_consumer_create_unknown trace e l
convert (to_kafka p) trace e = kafka_create_unknown trace e p

unless_base-base :
    (e : JsValue) (made : JsObject)
    → is_base_error (object made) ≡ true
    → is_base_error (object (unless_base e made)) ≡ true
unless_base-base (object o) made h = ground (arith, h)
unless_base-base js_undefined made h = h
unless_base-base e made h = h

made_by_kafka :
    (trace : String) (e : JsValue) (p : Bool)
    → is_base_error (object (kafka_convert trace e p)) ≡ true
unfolding kafka_create_unknown
made_by_kafka trace (object o) p = ground arith
made_by_kafka trace js_undefined p = refl
made_by_kafka trace e p = refl

pub convert-base :
    (c : Converter) (trace : String) (e : JsValue)
    → is_base_error (object (convert c trace e)) ≡ true
convert-base (to_api l) trace e = unfold api_create_unknown in unless_base-base e _ refl
convert-base (to_block_producer l) trace e =
    unfold block_producer_create_unknown in unless_base-base e _ refl
convert-base (to_event_consumer l) trace e =
    unfold event_consumer_create_unknown in unless_base-base e _ refl
convert-base (to_kafka p) trace e =
    unfold kafka_create_unknown in unless_base-base e _ (made_by_kafka trace e p)

pub convert_of_base :
    (c : Converter) (trace : String) (o : JsObject)
    → is_base_error (object o) ≡ true
    → convert c trace (object o) ≡ o
convert_of_base (to_api l) trace o h = unfold api_create_unknown in rw h
convert_of_base (to_block_producer l) trace o h = unfold block_producer_create_unknown in rw h
convert_of_base (to_event_consumer l) trace o h = unfold event_consumer_create_unknown in rw h
convert_of_base (to_kafka p) trace o h = unfold kafka_create_unknown in rw h
