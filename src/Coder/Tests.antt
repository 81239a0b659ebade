-- ===== src/Coder/Tests.antt =====
-- A small instance of protobufjs, and concrete runs of the coder.
use chain_indexer_framework.Prelude.{ℕ, zero, suc, String, Option, none, some, List, [], ◌∷◌}
use chain_indexer_framework.Errors.Value.{JsObject}
use chain_indexer_framework.Store.{done}
use chain_indexer_framework.Coder.State.{loading, Protobuf}
use chain_indexer_framework.Coder.Transcoding.{Call, encodes, decodes}

-- The content is a number, which is written as itself and accepted up to 1.
abbrev refuse : ℕ → Option String
refuse zero = none
refuse (suc zero) = none
refuse (suc (suc n)) = some "too large"

abbrev small : Protobuf
small = record {
  Schema = Unit {0};
  Content = ℕ;
  Bytes = ℕ;
  decode = λ schema n. done n;
  verify = λ schema n. refuse n;
  encode = λ schema n. done n;
}

abbrev shown : JsObject → String
shown o = "{}"

-- The file can be loaded at the later calls.
abbrev later : List (Call small shown)
later = decodes (loading (done tt)) 1 ∷ encodes (loading (done tt)) 1 ∷ []
