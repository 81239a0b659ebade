-- ===== src/Coder/Transcoding.antt =====
-- What `serialize` and `deserialize` of internal/coder/protobuf_coder.ts give after a type could not be
-- loaded.
use chain_indexer_framework.Prelude.{true, String, Option, none, some, List, [], ◌∷◌}
use chain_indexer_framework.Errors.Codes
use chain_indexer_framework.Errors.Value.{JsObject, JsValue, get_error_message}
use chain_indexer_framework.Store.{Outcome, done, failed}
use chain_indexer_framework.Coder.State.{
  Loading, Protobuf, Coder, coder_error, deserialize, serialize,
}

module _ (p : Protobuf) (stringify : JsObject → String) where
  abbrev pub load_error : JsValue → JsValue
  load_error e =
      coder_error p stringify "Coder error" Codes.invalid_path_proto true
        (get_error_message stringify e)

  -- A call of `serialize` or `deserialize`, with what `load` would answer to it.
  pub data Call : Type 0 where
    encodes : Loading p stringify → p.Content → Call
    decodes : Loading p stringify → p.Bytes → Call

  abbrev failure : {A : Type 0} → Outcome A → Option JsValue
  failure (done a) = none
  failure (failed e) = some e

  abbrev pub call : Call → Coder p stringify → Coder p stringify × Option JsValue
  call (encodes answer content) c =
      let r = serialize p stringify answer content c in (r.0, failure r.1)
  call (decodes answer bytes) c =
      let r = deserialize p stringify answer bytes c in (r.0, failure r.1)

  -- The errors of calls, one after the other.
  abbrev pub errors_of : List Call → Coder p stringify → List (Option JsValue)
  errors_of [] c = []
  errors_of (a ∷ more) c = let r = call a c in r.1 ∷ errors_of more r.0

  abbrev refused_coder : JsValue → Coder p stringify
  refused_coder e = record { protobuf_type = none; load_promise = some (failed e) }
