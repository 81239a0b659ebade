-- ===== src/Transform/Tests.antt =====
-- A producer that keeps what it is given, and a concrete course of messages.
use chain_indexer_framework.Prelude.{ℕ, zero, suc, ◌≡◌, refl, true, String, List, [], ◌∷◌, ◌++◌}
use chain_indexer_framework.Errors.Value.{text}
use chain_indexer_framework.Store.{Outcome, done, failed}
use chain_indexer_framework.Transform.Data.{
  TransformedBlock, Sink, Keeps, run, events_of, run-events,
}
use chain_indexer_framework.Transform.Closing.{
  starts_producer, starts_consumer, stops_producer, on_closed,
}

abbrev keeping : Sink ℕ
keeping = record {
  State = List (String × TransformedBlock ℕ);
  produce = λ key block s. (done tt, s ++ ((key, block) ∷ []));
}

-- A message is a number; it cannot be transformed when it is 0, and 1 gives no data.
abbrev transform_number : ℕ → Outcome (TransformedBlock ℕ)
transform_number zero = failed (text "no block")
transform_number (suc zero) = done (record { block_number = 1; timestamp = 0; contents = [] })
transform_number (suc (suc n)) =
    done (record { block_number = suc (suc n); timestamp = 0; contents = n ∷ [] })

keeping-Keeps : Keeps keeping transform_number
keeping-Keeps = record { events = λ s. s; added = λ key block s. refl }

run-events_example :
    keeping-Keeps.events (run keeping transform_number (5 ∷ 1 ∷ 6 ∷ 0 ∷ 7 ∷ []) [])
    ≡ keeping-Keeps.events [] ++ events_of keeping transform_number (5 ∷ 1 ∷ 6 ∷ 0 ∷ 7 ∷ [])
run-events_example = run-events keeping transform_number keeping-Keeps (5 ∷ 1 ∷ 6 ∷ 0 ∷ 7 ∷ []) []

closes_and_resumes :
    on_closed "at" true
      (record { producer_stop = done tt; producer_start = done tt; consumer_start = done tt })
      []
    ≡ starts_consumer ∷ starts_producer ∷ stops_producer ∷ []
unfolding on_closed
closes_and_resumes = refl
