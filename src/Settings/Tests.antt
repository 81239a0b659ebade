-- ===== src/Settings/Tests.antt =====
-- The constructors at concrete configurations.
use chain_indexer_framework.Prelude.{◌≡◌, refl, none, some, [], ◌∷◌}
use chain_indexer_framework.Prelude.Int.{pos}
use chain_indexer_framework.Store.{Outcome, done}
use chain_indexer_framework.Settings.{
  whole, written, array, Config, read, delete, delete_all, object_assign, literal, coalesce,
  or_else,
}
use chain_indexer_framework.Settings.Producers.{
  new_synchronous_producer, new_abstract_producer, new_block_producer, new_asynchronous_producer,
}
use chain_indexer_framework.Settings.BlockProducers.{
  public_block_producer, quicknode_block_producer,
}
use chain_indexer_framework.Settings.Consumers.{new_abstract_consumer, retries_or}
use chain_indexer_framework.Settings.Choosing.{blocks_erigon, consume, produce, ConsumerKind}
use chain_indexer_framework.Settings.Choosing.{transform}
use chain_indexer_framework.Settings.Clients.{
  by_logs, by_quicknode, block_producer, kafka_of, made, taken, defaults, passed,
}
use chain_indexer_framework.Settings.Passing.{kafka_of-passed, HasDefaults, second-HasDefaults}

abbrev config : Config
config = literal (
    ("type", written "blocks:erigon")
    ∷ ("topic", written "blocks")
    ∷ ("acks", whole (pos 1))
    ∷ ("rpcWsEndpoints", array ("ws://a" ∷ "ws://b" ∷ []))
    ∷ ("startBlock", whole (pos 7))
    ∷ ("blockDelay", whole (pos 5))
    ∷ [])

kafka_of-passed_example :
    kafka_of (block_producer by_quicknode) config "acks"
    ≡ passed
        (taken (block_producer by_quicknode))
        (defaults (block_producer by_quicknode))
        config
        "acks"
kafka_of-passed_example = kafka_of-passed (block_producer by_quicknode) config "acks"

acks_overridden : kafka_of (block_producer by_quicknode) config "acks" ≡ some (whole (pos 1))
unfolding kafka_of made quicknode_block_producer new_block_producer new_asynchronous_producer
    new_abstract_producer delete_all delete object_assign literal
acks_overridden = refl

-- A block producer over logs has no delay, and passes it on.
delay_passed_on : kafka_of (block_producer by_logs) config "blockDelay" ≡ some (whole (pos 5))
unfolding kafka_of made public_block_producer new_block_producer new_asynchronous_producer
    new_abstract_producer delete_all delete object_assign literal
delay_passed_on = refl

second-HasDefaults_example : HasDefaults by_logs (made by_logs (made by_logs config).left)
second-HasDefaults_example = second-HasDefaults by_logs config

first_starts_at_seven : (made by_logs config).start_block ≡ whole (pos 7)
unfolding made public_block_producer read coalesce literal
first_starts_at_seven = refl

chooses_erigon : (produce "at" config).0 ≡ done blocks_erigon
unfolding produce read literal
chooses_erigon = refl

consumes_nothing :
    (m : Outcome ConsumerKind × Config) × (consume "at" config ≡ m) × (m.1 "type" ≡ none)
unfolding consume delete literal
consumes_nothing = (_, refl, refl)

-- No retries are kept as such; no time to connect is not.
keeps_zero :
    ((new_abstract_consumer (literal []) (literal (("maxRetries", whole (pos 0)) ∷ []))).max_retries
      ≡ whole (pos 0))
    × ((new_synchronous_producer (literal (("deliveryTimeout", whole (pos 0)) ∷ []))).0
        ≡ whole (pos 10000))
unfolding new_abstract_consumer new_synchronous_producer retries_or or_else read literal
keeps_zero = (refl, refl)

transforms_nothing : (transform "at" config).1 "type" ≡ some (written "blocks:erigon")
unfolding transform literal
transforms_nothing = refl
