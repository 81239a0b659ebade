-- ===== src/Consumer/Arrivals.antt =====
-- Which messages of internal/kafka/consumer/abstract_consumer.ts enter the queue, and in which order, when
-- their decoding overlaps.
use chain_indexer_framework.Prelude.{Bool, String, Option, none, some, List, [], ◌∷◌, ◌++◌, map}
use mathlib.Core.List.{Perm}
use mathlib.Core.List.Perm
use chain_indexer_framework.Queue.Refines.{Holds}
use chain_indexer_framework.Store.{Outcome, done}
use chain_indexer_framework.Consumer.State.{Message, Element, Consumer}
use chain_indexer_framework.Consumer.Steps.{new_element}
use chain_indexer_framework.Consumer.Overlap.{Decoding, Arrival, arrives, is_decoded}

-- What was picked, and the others, are the messages.
Picked : List Message → Option (Message × List Message) → Type 0
Picked ms none = Unit
Picked ms (some (m, rest)) = Perm ms (m ∷ rest)

abbrev pub arrived : List Arrival → List Message
arrived [] = []
arrived (arrives m ∷ es) = m ∷ arrived es
arrived (is_decoded i ∷ es) = arrived es

-- What `deserialize` makes of a message, with the text that the coder of its topic gives.
abbrev pub with_text : (text_of : String → String → String) → Message → Message
with_text text_of m = elim m.value [
  | none ↦ m
  | some v ↦ record m { value = some (text_of m.topic v) }
]

module _ (trace : String) (asynchronous : Bool) (text_of : String → String → String) where
  -- A decoder that gives a text for every message.
  abbrev pub decoder : String → String → Outcome String
  decoder topic v = done (text_of topic v)

  abbrev pub elements : List Message → List Element
  elements ms = map (λ m. new_element asynchronous (with_text text_of m)) ms

  -- What a run takes out of the decoders: it is in the queue, behind what was there.
  pub record Took (es : List Arrival) (xs : List Element) (s s' : Decoding) : Type 0 where
    pub taken : List Message
    pub queued : Holds s'.consumer.queue (xs ++ elements taken)
    pub kept : Perm (taken ++ s'.decoding) (s.decoding ++ arrived es)
