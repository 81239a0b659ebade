-- ===== src/Settings/Choosing.antt =====
-- `consume`, `produce` and `transform` of public/kafka and public/data_transformation: which class is
-- constructed, from the type in the configuration. What comes after the construction, the calls of
-- `start` and the listeners, is that of the class.
use chain_indexer_framework.Prelude.{String, Option, none, some, if◌then◌else◌}
use chain_indexer_framework.Prelude.Text.{str_eq}
use chain_indexer_framework.Errors.Value.{object, new_error}
use chain_indexer_framework.Store.{Outcome, done, failed}
use chain_indexer_framework.Settings.{Value, written, Config, read, delete}

pub data ConsumerKind : Type 0 where
  asynchronous_consumer synchronous_consumer : ConsumerKind

pub data ProducerKind : Type 0 where
  asynchronous synchronous blocks_quicknode blocks_erigon blocks_polling blocks : ProducerKind

pub data TransformerKind : Type 0 where
  asynchronous_transformer synchronous_transformer : TransformerKind

-- The `switch` of each, on a value that is a string; other values are of the default case.
abbrev pub text_of : Value → Option String
text_of (written text) = some text
text_of v = none

abbrev pub consumer_kind : Option String → Option ConsumerKind
consumer_kind none = none
consumer_kind (some type) =
    if str_eq type "asynchronous"
    then some asynchronous_consumer
    else if str_eq type "synchronous"
    then some synchronous_consumer
    else none

abbrev pub producer_kind : Option String → Option ProducerKind
producer_kind none = none
producer_kind (some type) =
    if str_eq type "asynchronous"
    then some asynchronous
    else if str_eq type "synchronous"
    then some synchronous
    else if str_eq type "blocks:quicknode"
    then some blocks_quicknode
    else if str_eq type "blocks:erigon"
    then some blocks_erigon
    else if str_eq type "blocks:polling"
    then some blocks_polling
    else if str_eq type "blocks"
    then some blocks
    else none

abbrev pub transformer_kind : Option String → Option TransformerKind
transformer_kind none = none
transformer_kind (some type) =
    if str_eq type "asynchronous"
    then some asynchronous_transformer
    else if str_eq type "synchronous"
    then some synchronous_transformer
    else none

module _ (trace : String) where
  abbrev pub chosen : {K : Type 0} → Option K → Outcome K
  chosen none = failed (object (new_error trace "Invalid type"))
  chosen (some kind) = done kind

  -- What is constructed, or the error, and the configuration, which has lost its type either way; the
  -- class is constructed from that configuration.
  unfoldable pub consume : Config → Outcome ConsumerKind × Config
  unfolding read delete
  consume config = (chosen (consumer_kind (text_of (read "type" config))), delete "type" config)

  unfoldable pub produce : Config → Outcome ProducerKind × Config
  unfolding read delete
  produce config = (chosen (producer_kind (text_of (read "type" config))), delete "type" config)

  -- `transform` leaves the type where it is.
  unfoldable pub transform : Config → Outcome TransformerKind × Config
  unfolding read
  transform config = (chosen (transformer_kind (text_of (read "type" config))), config)
