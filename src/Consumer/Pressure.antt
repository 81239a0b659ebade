-- ===== src/Consumer/Pressure.antt =====
-- Back pressure: when the consumer of internal/kafka/consumer/abstract_consumer.ts is paused.
use chain_indexer_framework.Prelude.{◌≡◌, Bool, leb, true, false, List, [], ◌∷◌}
use chain_indexer_framework.Queue.{get_length}
use chain_indexer_framework.Consumer.State.{Action, pauses, resumes, Consumer}

-- Whether the newest call of `pause` or `resume` at the client was one of `pause`.
abbrev pub paused_last : List Action → Bool
paused_last [] = false
paused_last (pauses message ∷ log) = true
paused_last (resumes message ∷ log) = false
paused_last (other ∷ log) = paused_last log

abbrev pub IsTold : Consumer → Type 0
IsTold c = paused_last c.log ≡ c.consumer_paused

-- Paused, in the consumer's view and by its calls at the client, exactly while the buffer is at its
-- maximum or above.
abbrev pub IsInPressure : Consumer → Type 0
IsInPressure c =
    (c.consumer_paused ≡ leb c.max_buffer_length (get_length c.queue))
    × (paused_last c.log ≡ leb c.max_buffer_length (get_length c.queue))
