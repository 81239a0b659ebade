-- ===== src/Public/Tests.antt =====
-- The coders of two topics, from configurations of which one names a directory.
use chain_indexer_framework.Prelude.{◌≡◌, refl, none, some, List, [], ◌∷◌, All, String, arith}
use chain_indexer_framework.Store.{done}
use chain_indexer_framework.Public.Coders.{
  CoderConfig, TopicCoders, coder_of, topics, coder_list, consumer_coders, find_coder, one_topic,
  one_coder, configured, refused, asynchronous_consumer_coders, asynchronous_producer_coder,
  producer_coder,
}
use chain_indexer_framework.Public.Topics.{paired, consumer_coders-found}

abbrev block_config : CoderConfig
block_config = record {
  file_name = "block";
  package_name = "blockpackage";
  message_type = "Block";
  file_directory = none;
}

abbrev transfer_config : CoderConfig
transfer_config = record {
  file_name = "transfer";
  package_name = "transferpackage";
  message_type = "Transfer";
  file_directory = some "schemas";
}

abbrev two_topics : List String
two_topics = "blocks" ∷ "transfers" ∷ []

abbrev two_configs : List CoderConfig
two_configs = block_config ∷ transfer_config ∷ []

consumer_coders-found_example :
    (coders : TopicCoders) × (consumer_coders "at"
        (some (topics two_topics))
        (some (coder_list two_configs))
      ≡ done coders)
    × All (λ p. find_coder p.0 coders ≡ some (coder_of p.1 none)) (paired two_topics two_configs)
consumer_coders-found_example =
    consumer_coders-found "at" two_topics two_configs (omega arith) ((refl, tt), (tt, tt))

-- The directory is used with one topic only; an empty topic is none, and the two must fit.
directory_with_one_topic :
    asynchronous_consumer_coders "at"
      (some (one_topic "transfers"))
      (some (one_coder transfer_config))
    ≡ done (("transfers", coder_of transfer_config (some "schemas")) ∷ [])
unfolding consumer_coders
directory_with_one_topic = refl

empty_topic :
    asynchronous_consumer_coders "at" (some (one_topic "")) (some (one_coder transfer_config))
    ≡ refused "at" "Please provide topic"
unfolding consumer_coders
empty_topic = refl

one_coder_for_two :
    asynchronous_consumer_coders "at" (some (topics two_topics)) (some (one_coder transfer_config))
    ≡ refused "at" "Please provide valid coder config or topic"
unfolding consumer_coders
one_coder_for_two = refl

producer_directory :
    asynchronous_producer_coder "at" (some (configured transfer_config))
    ≡ done (coder_of transfer_config (some "schemas"))
unfolding producer_coder
producer_directory = refl
