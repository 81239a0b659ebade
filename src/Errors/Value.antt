-- ===== src/Errors/Value.antt =====
-- The values that a `catch` may bind, and the tests on them: internal/errors/is_base_error.ts,
-- is_librdkafka_error.ts, create_error_object.ts and get_error_message.ts. An object is given by the
-- class that `instanceof` sees and by the fields that the code reads. A number is a whole number.
use chain_indexer_framework.Prelude.{
  suc, Bool, true, false, not, ◌&&◌, String, Option, none, some, if◌then◌else◌,
}
use chain_indexer_framework.Prelude.Int.{ℤ, pos, negsuc, eq_ℤ}
use chain_indexer_framework.Prelude.Text.{str_eq, decimal, ◌++ˢ◌}
use chain_indexer_framework.Errors.Codes.{base_error}

-- A property that is not in the object, one that holds `undefined`, and one that holds a value.
pub data Property {ℓ} (A : Type ℓ) : Type ℓ where
  missing undefined : Property A
  value : A → Property A

-- The chain of prototypes, down to the class that made the object.
pub data Class : Type 0 where
  plain native_error base_class api_class block_producer_class coder_class event_consumer_class
        kafka_class :
      Class

pub record JsObject : Type 0 where
  pub class : Class
  pub name : Property String
  pub code : Property ℤ
  pub is_fatal : Property Bool
  pub message : Property String
  pub origin : Property String
  pub stack : Property String
  pub identifier : Property ℤ

pub data JsValue : Type 0 where
  js_undefined js_null : JsValue
  boolean : Bool → JsValue
  number : ℤ → JsValue
  text : String → JsValue
  object : JsObject → JsValue

module _ {ℓ} {A : Type ℓ} where
  -- `"field" in error`
  abbrev pub is_in : Property A → Bool
  is_in missing = false
  is_in undefined = true
  is_in (value a) = true

  -- Reading a property: `undefined` when it is absent.
  abbrev pub read : Property A → Option A
  read missing = none
  read undefined = none
  read (value a) = some a

  -- Writing a property.
  abbrev pub written : Option A → Property A
  written none = undefined
  written (some a) = value a

abbrev pub identifies : Property ℤ → Bool
identifies (value i) = eq_ℤ i base_error
identifies other = false

unfoldable pub is_base_error : JsValue → Bool
is_base_error (object o) = is_in o.identifier && identifies o.identifier
is_base_error other = false

unfoldable pub is_librdkafka_error : JsValue → Bool
is_librdkafka_error (object o) =
    is_in o.message && (is_in o.code && (is_in o.is_fatal && (is_in o.origin && is_in o.stack)))
is_librdkafka_error other = false

-- Whether `if (error)` takes the branch.
unfoldable pub is_truthy : JsValue → Bool
is_truthy js_undefined = false
is_truthy js_null = false
is_truthy (boolean b) = b
is_truthy (number n) = not (eq_ℤ n (pos 0))
is_truthy (text t) = not (str_eq t "")
is_truthy (object o) = true

-- `error instanceof Error`
unfoldable pub is_error_instance : Class → Bool
is_error_instance plain = false
is_error_instance other = true

unfoldable pub print_number : ℤ → String
unfolding decimal
print_number (pos n) = decimal n
print_number (negsuc n) = "-" ++ˢ decimal (suc n)

-- `String(error)`; an object that is no error has the default `toString`.
unfoldable pub js_string : JsValue → String
unfolding print_number
js_string js_undefined = "undefined"
js_string js_null = "null"
js_string (boolean true) = "true"
js_string (boolean false) = "false"
js_string (number n) = print_number n
js_string (text s) = s
js_string (object o) = "[object Object]"

-- `new Error(message)`, with the stack that the engine records.
unfoldable pub new_error : (trace message : String) → JsObject
new_error trace message = record {
  class = native_error;
  name = value "Error";
  code = missing;
  is_fatal = missing;
  message = value message;
  origin = missing;
  stack = value trace;
  identifier = missing;
}

unfoldable pub create_error_object : (trace : String) → JsValue → JsObject
unfolding is_error_instance new_error
create_error_object trace (object o) =
    if is_error_instance o.class then o else new_error trace (js_string (object o))
create_error_object trace error = new_error trace (js_string error)

-- `!error`
unfoldable pub is_falsy : JsValue → Bool
is_falsy js_undefined = true
is_falsy js_null = true
is_falsy (boolean b) = not b
is_falsy (number n) = eq_ℤ n (pos 0)
is_falsy (text s) = str_eq s ""
is_falsy (object o) = false

-- `JSON.stringify` reads fields that `JsObject` leaves out, so it is an argument.
abbrev message_of_value : (JsObject → String) → JsValue → String
message_of_value stringify (object o) =
    if is_error_instance o.class
    then (elim o.message [ value m ↦ m | _ ↦ "undefined" ])
    else stringify o
message_of_value stringify error = js_string error

unfoldable pub get_error_message : (JsObject → String) → JsValue → String
unfolding is_falsy is_error_instance js_string
get_error_message stringify error =
    if is_falsy error then "Unknown error" else message_of_value stringify error

-- `error instanceof BlockProducerError`
abbrev pub is_block_producer_class : Class → Bool
is_block_producer_class block_producer_class = true
is_block_producer_class other = false

-- `error instanceof Error ? error.message : JSON.stringify(error)`, as it stands in a text.
abbrev pub cause_of : (JsValue → String) → JsValue → String
cause_of stringify (object o) =
    if is_error_instance o.class
    then (elim o.message [ value m ↦ m | _ ↦ "undefined" ])
    else stringify (object o)
cause_of stringify error = stringify error
