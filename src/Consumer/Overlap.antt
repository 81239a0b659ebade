-- ===== src/Consumer/Overlap.antt =====
-- Messages of internal/kafka/consumer/abstract_consumer.ts whose decoding overlaps. The "data" listener
-- is asynchronous and the client does not wait for it: a message that comes while another one is decoded
-- is decoded beside it, and enters the queue when its own decoder has answered. The messages here are at
-- or above their start offset.
use chain_indexer_framework.Prelude.{
  ℕ, zero, suc, Bool, String, Option, none, some, List, [], ◌∷◌, ◌++◌,
}
use chain_indexer_framework.Store.{Outcome}
use chain_indexer_framework.Consumer.State.{Message, Consumer}
use chain_indexer_framework.Consumer.Receiving.{deserialize, after_decoding}

-- A consumer, with the messages that are being decoded, in the order in which they came.
pub record Decoding : Type 0 where
  pub consumer : Consumer
  pub decoding : List Message

pub data Arrival : Type 0 where
  arrives : Message → Arrival
  -- The decoder answers for the message at an index.
  is_decoded : (index : ℕ) → Arrival

abbrev pub put_back : Message → Option (Message × List Message) → Option (Message × List Message)
put_back m none = none
put_back m (some (x, rest)) = some (x, m ∷ rest)

-- The message at an index, and the others.
abbrev pub pick : ℕ → List Message → Option (Message × List Message)
pick i [] = none
pick zero (m ∷ ms) = some (m, ms)
pick (suc i) (m ∷ ms) = put_back m (pick i ms)

module _ (trace : String) (asynchronous : Bool) (decode : String → String → Outcome String) where
  -- The rest of `onData` once the decoder has answered.
  abbrev pub decoded : Message → Consumer → Consumer
  decoded m c = after_decoding trace asynchronous (deserialize decode m) c

  abbrev pub decode_picked : Option (Message × List Message) → Decoding → Decoding
  decode_picked none s = s
  decode_picked (some (m, rest)) s = record { consumer = decoded m s.consumer; decoding = rest }

  unfoldable pub arrival : Arrival → Decoding → Decoding
  unfolding deserialize
  arrival (arrives m) s = record s { decoding = s.decoding ++ m ∷ [] }
  arrival (is_decoded i) s = decode_picked (pick i s.decoding) s

  abbrev pub run_arrivals : List Arrival → Decoding → Decoding
  run_arrivals [] s = s
  run_arrivals (e ∷ es) s = run_arrivals es (arrival e s)
