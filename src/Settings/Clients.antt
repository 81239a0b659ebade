-- ===== src/Settings/Clients.antt =====
-- The classes whose constructors pass a configuration on to node-rdkafka, and what each of them keeps
-- for itself.
use chain_indexer_framework.Prelude.{Bool, false, ◌||◌, String, List, [], ◌∷◌, ◌++◌, if◌then◌else◌}
use chain_indexer_framework.Prelude.Int.{pos}
use chain_indexer_framework.Prelude.Text.{str_eq}
use chain_indexer_framework.Settings.{whole, Config, either_own, object_assign, literal}
use chain_indexer_framework.Settings.Producers.{
  producer_defaults, new_asynchronous_producer, new_synchronous_producer,
}
use chain_indexer_framework.Settings.BlockProducers.{
  BlockProducerSettings, public_block_producer, erigon_block_producer, quicknode_block_producer,
  block_poller_producer, erigon_poller_producer,
}
use chain_indexer_framework.Settings.Consumers.{consumer_defaults, new_abstract_consumer}

-- The classes of block producers, and all classes.
pub data BlockClient : Type 0 where
  by_logs by_erigon by_quicknode by_polling by_erigon_polling : BlockClient

pub data Client : Type 0 where
  consumer asynchronous_producer synchronous_producer : Client
  block_producer : BlockClient → Client

unfoldable pub made : BlockClient → Config → BlockProducerSettings
unfolding public_block_producer erigon_block_producer quicknode_block_producer block_poller_producer
    erigon_poller_producer
made by_logs config = public_block_producer config
made by_erigon config = erigon_block_producer config
made by_quicknode config = quicknode_block_producer config
made by_polling config = block_poller_producer config
made by_erigon_polling config = erigon_poller_producer config

-- The configuration that node-rdkafka gets.
unfoldable pub kafka_of : Client → Config → Config
unfolding new_abstract_consumer new_asynchronous_producer new_synchronous_producer made
kafka_of consumer config = (new_abstract_consumer (literal []) config).kafka
kafka_of asynchronous_producer config = (new_asynchronous_producer config).kafka
kafka_of synchronous_producer config = (new_synchronous_producer config).1.kafka
kafka_of (block_producer client) config = (made client config).kafka

abbrev pub has : (key : String) → List String → Bool
has key [] = false
has key (k ∷ keys) = str_eq key k || has key keys

-- The keys that a class keeps for itself.
abbrev pub producer_keys : List String
producer_keys = "pollInterval" ∷ "connectionTimeout" ∷ "flushTimeout" ∷ "topic" ∷ []

abbrev pub taken_by : BlockClient → List String
taken_by by_logs =
    "rpcWsEndpoints" ∷ "startBlock" ∷ "mongoUrl" ∷ "dbCollection" ∷ "maxReOrgDepth" ∷ "maxRetries"
    ∷ "blockSubscriptionTimeout" ∷ []
taken_by by_erigon =
    "rpcWsEndpoints" ∷ "startBlock" ∷ "mongoUrl" ∷ "dbCollection" ∷ "maxReOrgDepth" ∷ "maxRetries"
    ∷ "blockSubscriptionTimeout" ∷ "blockDelay" ∷ []
taken_by by_quicknode =
    "rpcWsEndpoints" ∷ "startBlock" ∷ "mongoUrl" ∷ "dbCollection" ∷ "maxReOrgDepth" ∷ "maxRetries"
    ∷ "blockDelay" ∷ "blockSubscriptionTimeout" ∷ "blockDelay" ∷ "alternateEndpoint" ∷ "rpcTimeout"
    ∷ []
taken_by by_polling =
    "rpcWsEndpoints" ∷ "startBlock" ∷ "mongoUrl" ∷ "dbCollection" ∷ "maxReOrgDepth" ∷ "maxRetries"
    ∷ "blockPollingTimeout" ∷ []
taken_by by_erigon_polling =
    "rpcWsEndpoints" ∷ "startBlock" ∷ "mongoUrl" ∷ "dbCollection" ∷ "maxReOrgDepth" ∷ "maxRetries"
    ∷ "blockPollingTimeout" ∷ "rpcApiKey" ∷ []

abbrev pub taken : Client → List String
taken consumer =
    "maxBufferLength" ∷ "maxRetries" ∷ "connectionTimeout" ∷ "topicConfig" ∷ "startOffsets" ∷ []
taken asynchronous_producer = producer_keys
taken synchronous_producer = "deliveryTimeout" ∷ producer_keys
taken (block_producer client) = taken_by client ++ producer_keys

abbrev pub defaults : Client → Config
defaults consumer = consumer_defaults
defaults asynchronous_producer = producer_defaults
defaults synchronous_producer = producer_defaults
defaults (block_producer client) =
    object_assign producer_defaults (literal (("message.max.bytes", whole (pos 26214400)) ∷ []))

-- The caller's entry, unless it is one of these keys, and else the default.
abbrev pub passed : (keys : List String) (standard config : Config) → Config
passed keys standard config key =
    if has key keys then standard key else either_own (config key) (standard key)
