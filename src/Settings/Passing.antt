-- ===== src/Settings/Passing.antt =====
-- What of a caller's configuration reaches node-rdkafka through the constructors of public and internal,
-- and what is left of it.
use chain_indexer_framework.Prelude.{
  Bool, true, false, ◌||◌, ◌≡◌, refl, sym, ap, subst, ◌∙◌, inl, inr, String, Option, none, some,
  List, [], ◌∷◌, ◌++◌, if◌then◌else◌, Bool-cases,
}
use chain_indexer_framework.Prelude.Int.{pos}
use chain_indexer_framework.Prelude.Text.{str_eq, str_eq_iff}
use chain_indexer_framework.Settings.{
  Value, undefined, array, whole, written, Config, read, delete, delete_all, either_own,
  object_assign, literal, coalesce, first_entry,
}
use chain_indexer_framework.Settings.Producers.{
  producer_defaults, new_abstract_producer, new_asynchronous_producer, new_synchronous_producer,
  new_block_producer,
}
use chain_indexer_framework.Settings.BlockProducers.{
  Source, subscription, poller, erigon_poller, BlockProducerSettings, public_block_producer,
  erigon_block_producer, quicknode_block_producer, block_poller_producer, erigon_poller_producer,
}
use chain_indexer_framework.Settings.Consumers.{consumer_defaults, new_abstract_consumer}
use chain_indexer_framework.Settings.Clients.{
  BlockClient, by_logs, by_erigon, by_quicknode, by_polling, by_erigon_polling, Client, consumer,
  asynchronous_producer, synchronous_producer, block_producer, made, kafka_of, has, producer_keys,
  taken_by, taken, defaults, passed,
}

if_chain :
    {A : Type 0} (a b : Bool) (x y : A)
    → (if b then x else if a then x else y) ≡ (if a || b then x else y)
if_chain true true x y = refl
if_chain true false x y = refl
if_chain false true x y = refl
if_chain false false x y = refl

delete_all-has :
    (keys : List String) (config : Config) (key : String)
    → delete_all keys config key ≡ (if has key keys then none else config key)
unfolding delete_all delete
delete_all-has [] config key = refl
delete_all-has (k ∷ keys) config key =
    delete_all-has keys (delete k config) key
    ∙ if_chain (str_eq key k) (has key keys) none (config key)

overriding :
    (b : Bool) (own standard : Option Value)
    → either_own (if b then none else own) standard
      ≡ (if b then standard else either_own own standard)
overriding true own standard = refl
overriding false own standard = refl

-- A constructor that deletes keys and overrides its defaults.
deleted-passed :
    (keys : List String) (standard config : Config) (key : String)
    → object_assign standard (delete_all keys config) key ≡ passed keys standard config key
unfolding object_assign
deleted-passed keys standard config key =
    ap (λ o. either_own o (standard key)) (delete_all-has keys config key)
    ∙ overriding (has key keys) (config key) (standard key)

has-append :
    (key : String) (keys others : List String)
    → has key (keys ++ others) ≡ (has key keys || has key others)
has-append key [] others = refl
has-append key (k ∷ keys) others = elim (Bool-cases (str_eq key k)) [
  | inl y ↦ rw y refl
  | inr n ↦ rw n (has-append key keys others)
]

abbrev message_size : Config
message_size = literal (("message.max.bytes", whole (pos 26214400)) ∷ [])

-- The size of messages is no setting of the producer itself.
size_kept : (key : String) → has key producer_keys ≡ true → message_size key ≡ none
unfolding literal
size_kept key h = elim (Bool-cases (str_eq key "message.max.bytes")) [
  | inl y ↦
      absurd
        (cc (subst (λ k. has k producer_keys ≡ true) ((str_eq_iff key "message.max.bytes").0 y) h))
  | inr n ↦ rw n refl
]

two_layers :
    (a b : Bool) (own size standard : Option Value)
    → (b ≡ true → size ≡ none)
    → (if b then standard else either_own (either_own (if a then none else own) size) standard)
      ≡ (if a || b then either_own size standard else either_own own (either_own size standard))
two_layers true true own size standard h = rw (h refl) refl
two_layers false true own size standard h = rw (h refl) refl
two_layers true false own size standard h = refl
two_layers false false none size standard h = refl
two_layers false false (some v) size standard h = refl

-- The internal `BlockProducer` with the keys that a public one has deleted.
block_producer-passed :
    (keys : List String) (config : Config) (key : String)
    → (new_block_producer (delete_all keys config)).kafka key
      ≡ passed (keys ++ producer_keys) (object_assign producer_defaults message_size) config key
unfolding new_block_producer new_asynchronous_producer new_abstract_producer object_assign
block_producer-passed keys config key =
    deleted-passed producer_keys producer_defaults
      (object_assign message_size (delete_all keys config)) key
    ∙ ap
        (λ o.
          if has key producer_keys
          then producer_defaults key
          else either_own (either_own o (message_size key)) (producer_defaults key))
        (delete_all-has keys config key)
    ∙ two_layers (has key keys) (has key producer_keys) (config key) (message_size key)
        (producer_defaults key) (size_kept key)
    ∙ ap
        (λ b.
          if b
          then either_own (message_size key) (producer_defaults key)
          else either_own (config key) (either_own (message_size key) (producer_defaults key)))
        (sym (has-append key keys producer_keys))

synchronous-passed :
    (config : Config) (key : String)
    → kafka_of synchronous_producer config key
      ≡ passed (taken synchronous_producer) producer_defaults config key
unfolding kafka_of new_synchronous_producer new_abstract_producer delete_all
synchronous-passed config key =
    deleted-passed ("deliveryTimeout" ∷ producer_keys) producer_defaults config key

-- Whatever configuration one of the internal consumers or producers, or a block producer of
-- public/block_producers, is constructed with, node-rdkafka gets, for every key, the caller's entry, and
-- the default of the class where there is none; the settings that the class keeps for itself are not
-- passed on, and no others are held back.
pub kafka_of-passed :
    (client : Client) (config : Config) (key : String)
    → kafka_of client config key ≡ passed (taken client) (defaults client) config key
unfolding kafka_of new_abstract_consumer new_asynchronous_producer new_abstract_producer made
    public_block_producer erigon_block_producer quicknode_block_producer block_poller_producer
    erigon_poller_producer
kafka_of-passed consumer config key = deleted-passed (taken consumer) consumer_defaults config key
kafka_of-passed asynchronous_producer config key =
    deleted-passed producer_keys producer_defaults config key
kafka_of-passed synchronous_producer config key = synchronous-passed config key
kafka_of-passed (block_producer by_logs) config key =
    block_producer-passed (taken_by by_logs) config key
kafka_of-passed (block_producer by_erigon) config key =
    block_producer-passed (taken_by by_erigon) config key
kafka_of-passed (block_producer by_quicknode) config key =
    block_producer-passed (taken_by by_quicknode) config key
kafka_of-passed (block_producer by_polling) config key =
    block_producer-passed (taken_by by_polling) config key
kafka_of-passed (block_producer by_erigon_polling) config key =
    block_producer-passed (taken_by by_erigon_polling) config key

-- The first endpoint that a block producer has without a list of them.
abbrev default_endpoint : BlockClient → Value
default_endpoint by_polling = written ""
default_endpoint other = undefined

-- Where its blocks come from: no endpoints, no retries, no delay and no key.
abbrev default_source : BlockClient → Source
default_source by_logs =
    subscription (array []) (whole (pos 0)) "block_getter" undefined undefined undefined undefined
default_source by_erigon =
    subscription (array []) (whole (pos 0)) "erigon_block_getter" undefined (whole (pos 0))
      undefined undefined
default_source by_quicknode =
    subscription (array []) (whole (pos 0)) "quicknode_block_getter" undefined (whole (pos 0))
      undefined undefined
default_source by_polling = poller (whole (pos 2000))
default_source by_erigon_polling =
    erigon_poller (array []) undefined (whole (pos 2000)) (whole (pos 0))

-- What a block producer is constructed with when its configuration has none of its settings.
abbrev pub HasDefaults : BlockClient → BlockProducerSettings → Type 0
HasDefaults client settings =
    (settings.endpoint ≡ default_endpoint client)
    × (settings.source ≡ default_source client)
    × (settings.start_block ≡ whole (pos 0))
    × (settings.mongo_url ≡ written "mongodb://localhost:27017/chain-indexer")
    × (settings.db_collection ≡ written "producedblocks")
    × (settings.max_re_org_depth ≡ whole (pos 0))
    × (settings.getter_retries ≡ whole (pos 0))

-- The constructors of the block producers delete their settings from the object that the caller passes:
-- a producer of the same class that is constructed from the same object once more has no endpoints, no
-- timeout, delay or key of its own, starts at block 0, with the default database and collection, no depth
-- and no retries, whatever the object had at first.
pub second-HasDefaults :
    (client : BlockClient) (config : Config)
    → HasDefaults client (made client (made client config).left)
unfolding made public_block_producer erigon_block_producer quicknode_block_producer
    block_poller_producer erigon_poller_producer new_block_producer read coalesce first_entry
    delete_all delete
second-HasDefaults by_logs config = (refl, refl, refl, refl, refl, refl, refl)
second-HasDefaults by_erigon config = (refl, refl, refl, refl, refl, refl, refl)
second-HasDefaults by_quicknode config = (refl, refl, refl, refl, refl, refl, refl)
second-HasDefaults by_polling config = (refl, refl, refl, refl, refl, refl, refl)
second-HasDefaults by_erigon_polling config = (refl, refl, refl, refl, refl, refl, refl)
