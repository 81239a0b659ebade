-- ===== src/Coder/State.antt =====
-- `Coder` of internal/coder/protobuf_coder.ts: `loadType`, `deserialize` and `serialize`.
use chain_indexer_framework.Prelude.{Bool, true, false, String, Option, none, some}
use chain_indexer_framework.Prelude.Int.{ℤ}
use chain_indexer_framework.Errors.Codes
use chain_indexer_framework.Errors.Value.{JsObject, JsValue, object, get_error_message}
use chain_indexer_framework.Errors.Classes.{new_coder_error}
use chain_indexer_framework.Store.{Outcome, done, failed}

-- What protobufjs does with a type that it has looked up. `verify` gives the reason for a refusal.
pub record Protobuf : Type 1 where
  pub Schema : Type 0
  pub Content : Type 0
  pub Bytes : Type 0
  pub decode : Schema → Bytes → Outcome Content
  pub verify : Schema → Content → Option String
  pub encode : Schema → Content → Outcome Bytes

module _ (p : Protobuf) (stringify : JsObject → String) where
  -- `protobufType`, and `loadPromise` with what it gives.
  pub record Coder : Type 0 where
    pub protobuf_type : Option p.Schema
    pub load_promise : Option (Outcome p.Schema)

  abbrev pub new_coder : Coder
  new_coder = record { protobuf_type = none; load_promise = none }

  abbrev pub coder_error : String → ℤ → Bool → (message : String) → JsValue
  coder_error name code is_fatal message = object (
      new_coder_error (record {
        name = some name;
        code = some code;
        is_fatal = some is_fatal;
        message = some message;
        origin = none;
        stack = none;
      }))

  -- The `catch` of `loadType`.
  abbrev pub load_result : Outcome p.Schema → Outcome p.Schema
  load_result (done schema) = done schema
  load_result (failed e) =
      failed
        (coder_error "Coder error" Codes.invalid_path_proto true (get_error_message stringify e))

  -- What happens when the load is begun: the file is not found, which is thrown at once, or there is a
  -- promise, of what `load` and `lookupType` give.
  pub data Loading : Type 0 where
    not_resolved : JsValue → Loading
    loading : Outcome p.Schema → Loading

  abbrev pub begin_load : Loading → Coder → Coder × Outcome p.Schema
  begin_load (not_resolved e) c = (c, load_result (failed e))
  begin_load (loading promise) c = (record c { load_promise = some promise }, load_result promise)

  abbrev pub load_once : Option (Outcome p.Schema) → Loading → Coder → Coder × Outcome p.Schema
  load_once (some promise) answer c = (c, load_result promise)
  load_once none answer c = begin_load answer c

  unfoldable pub load_type : (answer : Loading) → Coder → Coder × Outcome p.Schema
  unfolding get_error_message new_coder_error
  load_type answer c = load_once c.load_promise answer c

  abbrev pub keep_type : Coder × Outcome p.Schema → Coder × Outcome p.Schema
  keep_type (c, failed e) = (c, failed e)
  keep_type (c, done schema) = (record c { protobuf_type = some schema }, done schema)

  -- `if (!this.protobufType) this.protobufType = await this.loadType()`
  abbrev pub ensure_type : (answer : Loading) → Option p.Schema → Coder → Coder × Outcome p.Schema
  ensure_type answer (some schema) c = (c, done schema)
  ensure_type answer none c = keep_type (load_type answer c)

  abbrev pub decode_result : Outcome p.Content → Outcome p.Content
  decode_result (done content) = done content
  decode_result (failed e) =
      failed
        (coder_error "Decoding error" Codes.decoding_error true (get_error_message stringify e))

  abbrev pub decode_with : p.Bytes → Coder × Outcome p.Schema → Coder × Outcome p.Content
  decode_with bytes (c, failed e) = (c, failed e)
  decode_with bytes (c, done schema) = (c, decode_result (p.decode schema bytes))

  unfoldable pub deserialize : (answer : Loading) → p.Bytes → Coder → Coder × Outcome p.Content
  unfolding load_type
  deserialize answer bytes c = decode_with bytes (ensure_type answer c.protobuf_type c)

  abbrev pub encode_verified : p.Schema → p.Content → Option String → Outcome p.Bytes
  encode_verified schema content none = p.encode schema content
  encode_verified schema content (some reason) =
      failed
        (coder_error "Message verification failed" Codes.encoding_verification_failed false reason)

  abbrev pub encode_with : p.Content → Coder × Outcome p.Schema → Coder × Outcome p.Bytes
  encode_with content (c, failed e) = (c, failed e)
  encode_with content (c, done schema) =
      (c, encode_verified schema content (p.verify schema content))

  unfoldable pub serialize : (answer : Loading) → p.Content → Coder → Coder × Outcome p.Bytes
  unfolding load_type
  serialize answer content c = encode_with content (ensure_type answer c.protobuf_type c)
