-- ===== src/Errors/Tests.antt =====
-- Concrete conversions.
use chain_indexer_framework.Prelude.{◌≡◌, refl, true, false}
use chain_indexer_framework.Prelude.Int.{pos, negsuc}
use chain_indexer_framework.Errors.Value.{
  missing, value, plain, JsObject, text, number, object, is_base_error, js_string,
  get_error_message,
}
use chain_indexer_framework.Errors.Converters.{to_block_producer, to_kafka, convert}
use chain_indexer_framework.Errors.Conversion.{convert-first_wins}

abbrev lib_error : JsObject
lib_error = record {
  class = plain;
  name = missing;
  code = value (negsuc 194);
  is_fatal = value false;
  message = value "Local: Broker transport failure";
  origin = value "kafka";
  stack = value "at produce";
  identifier = missing;
}

printed : js_string (number (negsuc 194)) ≡ "-195"
unfolding js_string
printed = refl

falsy_message : get_error_message (λ _. "{}") (number (pos 0)) ≡ "Unknown error"
unfolding get_error_message
falsy_message = refl

convert-first_wins_example :
    (is_base_error (object (convert (to_block_producer false) "at" (text "lost"))) ≡ true)
    × (convert (to_kafka true) "on" (object (convert (to_block_producer false) "at" (text "lost")))
        ≡ convert (to_block_producer false) "at" (text "lost"))
convert-first_wins_example =
    convert-first_wins (to_block_producer false) (to_kafka true) "at" "on" (text "lost")
