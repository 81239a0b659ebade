-- ===== src/Settings/BlockProducers.antt =====
-- The constructors in public/block_producers: the settings that each takes out of its configuration,
-- where they go, and the rest, which goes to the producer. The parts that they construct are given by
-- their arguments.
use chain_indexer_framework.Prelude.{String, List, [], ◌∷◌, ◌++◌}
use chain_indexer_framework.Prelude.Int.{pos}
use chain_indexer_framework.Settings.{
  Value, undefined, whole, written, array, Config, read, delete_all, coalesce, first_entry,
}
use chain_indexer_framework.Settings.Producers.{new_block_producer}

-- The arguments of `BlockSubscription`, of `BlockPoller` and of `ErigonBlockPoller`.
pub data Source : Type 0 where
  subscription :
      (endpoints max_retries : Value) (getter_type : String)
      (timeout block_delay alternate_endpoint rpc_timeout : Value)
      → Source
  poller : (polling_timeout : Value) → Source
  erigon_poller : (endpoints rpc_api_key polling_timeout max_retries : Value) → Source

-- What a constructor makes; `left` is the caller's configuration afterwards.
pub record BlockProducerSettings : Type 0 where
  pub endpoint : Value
  pub getter_retries : Value
  pub source : Source
  pub mongo_url : Value
  pub db_collection : Value
  pub start_block : Value
  pub max_re_org_depth : Value
  pub kafka : Config
  pub left : Config

-- The settings that all of them read, with the `super` call of each.
abbrev with_common :
    (endpoint : Value) → Source → (keys : List String) → Config → BlockProducerSettings
with_common endpoint source keys config =
    let left = delete_all keys config in
    let made = new_block_producer left in
    record {
      endpoint = endpoint;
      getter_retries = coalesce (read "maxRetries" config) (whole (pos 0));
      source = source;
      mongo_url =
          coalesce (read "mongoUrl" config) (written "mongodb://localhost:27017/chain-indexer");
      db_collection = coalesce (read "dbCollection" config) (written "producedblocks");
      start_block = coalesce (read "startBlock" config) (whole (pos 0));
      max_re_org_depth = coalesce (read "maxReOrgDepth" config) (whole (pos 0));
      kafka = made.kafka;
      left = made.left;
    }

-- The keys that all of them delete.
abbrev pub common_keys : List String
common_keys =
    "rpcWsEndpoints" ∷ "startBlock" ∷ "mongoUrl" ∷ "dbCollection" ∷ "maxReOrgDepth" ∷ "maxRetries"
    ∷ []

abbrev endpoints_of : Config → Value
endpoints_of config = coalesce (read "rpcWsEndpoints" config) (array [])

abbrev retries_of : Config → Value
retries_of config = coalesce (read "maxRetries" config) (whole (pos 0))

abbrev delay_of : Config → Value
delay_of config = coalesce (read "blockDelay" config) (whole (pos 0))

abbrev polling_timeout_of : Config → Value
polling_timeout_of config = coalesce (read "blockPollingTimeout" config) (whole (pos 2000))

unfoldable pub public_block_producer : Config → BlockProducerSettings
unfolding read coalesce first_entry delete_all new_block_producer
public_block_producer config =
    with_common (first_entry (endpoints_of config))
      (subscription (endpoints_of config) (retries_of config) "block_getter"
        (read "blockSubscriptionTimeout" config) undefined undefined undefined)
      (common_keys ++ "blockSubscriptionTimeout" ∷ []) config

unfoldable pub erigon_block_producer : Config → BlockProducerSettings
unfolding read coalesce first_entry delete_all new_block_producer
erigon_block_producer config =
    with_common (first_entry (endpoints_of config))
      (subscription (endpoints_of config) (retries_of config) "erigon_block_getter"
        (read "blockSubscriptionTimeout" config) (delay_of config) undefined undefined)
      (common_keys ++ "blockSubscriptionTimeout" ∷ "blockDelay" ∷ []) config

unfoldable pub quicknode_block_producer : Config → BlockProducerSettings
unfolding read coalesce first_entry delete_all new_block_producer
quicknode_block_producer config =
    with_common (first_entry (endpoints_of config))
      (subscription (endpoints_of config) (retries_of config) "quicknode_block_getter"
        (read "blockSubscriptionTimeout" config) (delay_of config) (read "alternateEndpoint" config)
        (read "rpcTimeout" config))
      (common_keys
        ++ "blockDelay" ∷ "blockSubscriptionTimeout" ∷ "blockDelay" ∷ "alternateEndpoint"
          ∷ "rpcTimeout" ∷ [])
      config

-- `config.rpcWsEndpoints?.[0] ?? ""`
unfoldable pub block_poller_producer : Config → BlockProducerSettings
unfolding read coalesce first_entry delete_all new_block_producer
block_poller_producer config =
    with_common (coalesce (first_entry (read "rpcWsEndpoints" config)) (written ""))
      (poller (polling_timeout_of config)) (common_keys ++ "blockPollingTimeout" ∷ []) config

unfoldable pub erigon_poller_producer : Config → BlockProducerSettings
unfolding read coalesce first_entry delete_all new_block_producer
erigon_poller_producer config =
    with_common (first_entry (endpoints_of config))
      (erigon_poller (endpoints_of config) (read "rpcApiKey" config) (polling_timeout_of config)
        (retries_of config))
      (common_keys ++ "blockPollingTimeout" ∷ "rpcApiKey" ∷ []) config
