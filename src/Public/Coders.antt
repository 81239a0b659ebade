-- ===== src/Public/Coders.antt =====
-- The coders that the constructors in public/kafka/consumer and public/kafka/producer make of their
-- configuration. An object of coders by topic is told apart from one coder's configuration as the code
-- does, by its "fileName".
use chain_indexer_framework.Prelude.{
  String, Option, none, some, List, [], ◌∷◌, if◌then◌else◌, or_default,
}
use chain_indexer_framework.Prelude.Text.{str_eq}
use chain_indexer_framework.Errors.Value.{JsObject, value, object, new_error}
use chain_indexer_framework.Store.{Outcome, done, failed}

-- `ICoderConfig`
pub record CoderConfig : Type 0 where
  pub file_name : String
  pub package_name : String
  pub message_type : String
  pub file_directory : Option String

-- The arguments that a `Coder` is constructed with, with its default put in.
pub record CoderArguments : Type 0 where
  pub file_name : String
  pub package_name : String
  pub message_type : String
  pub file_directory : String

abbrev pub default_directory : String
default_directory = "@maticnetwork/chain-indexer-framework/schemas"

-- `new Coder(fileName, packageName, messageType, fileDirectory)`
abbrev pub coder_of : CoderConfig → (file_directory : Option String) → CoderArguments
coder_of c file_directory = record {
  file_name = c.file_name;
  package_name = c.package_name;
  message_type = c.message_type;
  file_directory = or_default file_directory default_directory;
}

-- The object from topics to coders, the last assignment first.
abbrev pub TopicCoders : Type 0
TopicCoders = List (String × CoderArguments)

pub data Topic : Type 0 where
  one_topic : String → Topic
  topics : List String → Topic

pub data Coders : Type 0 where
  by_topic : TopicCoders → Coders
  one_coder : CoderConfig → Coders
  coder_list : List CoderConfig → Coders

module _ (trace : String) where
  abbrev pub refused : {A : Type 0} → (message : String) → Outcome A
  refused message = failed (object (new_error trace message))

  -- `coderConfig[topicIndex].fileName` of an index that the array does not have.
  abbrev pub no_config : JsObject
  no_config = record (new_error trace "Cannot read properties of undefined (reading 'fileName')") {
    name = value "TypeError";
  }

  -- The loop over the topics.
  unfoldable pub assign_coders : List String → List CoderConfig → TopicCoders → Outcome TopicCoders
  assign_coders [] configs coders = done coders
  assign_coders (t ∷ ts) [] coders = failed (object no_config)
  assign_coders (t ∷ ts) (c ∷ cs) coders = assign_coders ts cs ((t, coder_of c none) ∷ coders)

  abbrev pub make_coders : Topic → Coders → Outcome TopicCoders
  make_coders topic (by_topic coders) = done coders
  make_coders (one_topic t) (one_coder c) = done ((t, coder_of c c.file_directory) ∷ [])
  make_coders (topics ts) (coder_list cs) = assign_coders ts cs []
  make_coders (one_topic t) (coder_list cs) = refused "Please provide valid coder config or topic"
  make_coders (topics ts) (one_coder c) = refused "Please provide valid coder config or topic"

  abbrev pub with_coders : Topic → Option Coders → Outcome TopicCoders
  with_coders topic none = refused "Please provide coders"
  with_coders topic (some coders) = make_coders topic coders

  -- The constructor of both consumers; an empty topic is falsy.
  unfoldable pub consumer_coders : Option Topic → Option Coders → Outcome TopicCoders
  unfolding assign_coders
  consumer_coders none coders = refused "Please provide topic"
  consumer_coders (some (one_topic t)) coders =
      if str_eq t "" then refused "Please provide topic" else with_coders (one_topic t) coders
  consumer_coders (some (topics ts)) coders = with_coders (topics ts) coders

  -- The constructors of the producers: a coder, or its configuration.
  pub data ProducerCoder : Type 0 where
    made : CoderArguments → ProducerCoder
    configured : CoderConfig → ProducerCoder

  unfoldable pub producer_coder : Option ProducerCoder → Outcome CoderArguments
  producer_coder none = refused "Please provide coder"
  producer_coder (some (made coder)) = done coder
  producer_coder (some (configured c)) = done (coder_of c c.file_directory)

  -- The same two of the asynchronous classes, which are written out once more.
  abbrev pub asynchronous_consumer_coders : Option Topic → Option Coders → Outcome TopicCoders
  asynchronous_consumer_coders = consumer_coders

  abbrev pub asynchronous_producer_coder : Option ProducerCoder → Outcome CoderArguments
  asynchronous_producer_coder = producer_coder

-- `coders[topic]`
unfoldable pub find_coder : String → TopicCoders → Option CoderArguments
find_coder topic [] = none
find_coder topic ((t, coder) ∷ rest) = if str_eq t topic then some coder else find_coder topic rest
