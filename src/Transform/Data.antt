-- ===== src/Transform/Data.antt =====
-- `onData` of `AbstractDataTransformer`. The transformation, which a subclass writes, and the producer
-- are arguments.
use chain_indexer_framework.Prelude.{
  ℕ, ◌≡◌, sym, ap, ◌∙◌, Bool, true, false, inl, inr, String, List, [], ◌∷◌, ◌++◌, append-nil,
  append_assoc, Bool-cases, if◌then◌else◌,
}
use chain_indexer_framework.Prelude.Text.{decimal}
use chain_indexer_framework.Store.{Outcome, done, failed}

-- `ITransformedBlock`
pub record TransformedBlock (G : Type 0) : Type 0 where
  pub block_number : ℕ
  pub timestamp : ℕ
  pub contents : List G

-- `transformedBlock.data.length > 0`
abbrev pub has_data : {G : Type 0} → TransformedBlock G → Bool
has_data block = elim block.contents [ [] ↦ false | c ∷ cs ↦ true ]

-- The producer's `produceEvent`, with a state of its own.
pub record Sink (G : Type 0) : Type 1 where
  pub State : Type 0
  pub produce : (key : String) → TransformedBlock G → State → Outcome (Unit {0}) × State

module _ {T G : Type 0} (sink : Sink G) (transform : T → Outcome (TransformedBlock G)) where
  abbrev pub produce_data :
      Outcome (TransformedBlock G) → sink.State → Outcome (Unit {0}) × sink.State
  produce_data (failed e) s = (failed e, s)
  produce_data (done block) s =
      if has_data block then sink.produce (decimal block.block_number) block s else (done tt, s)

  unfoldable pub on_data : T → sink.State → Outcome (Unit {0}) × sink.State
  on_data message s = produce_data (transform message) s

  -- Calls of `onData`, in the order in which their transformations end. Each call is on its own: one that
  -- fails does not keep the next from being made.
  abbrev pub run : List T → sink.State → sink.State
  run [] s = s
  run (m ∷ ms) s = run ms (on_data m s).1

  -- A producer that keeps every event that it is given, in order, whether it can produce it or not.
  pub record Keeps : Type 0 where
    pub events : sink.State → List (String × TransformedBlock G)
    pub added :
        (key : String) (block : TransformedBlock G) (s : sink.State)
        → events (sink.produce key block s).1 ≡ events s ++ ((key, block) ∷ [])

  -- The event of a message: none if it cannot be transformed, or not to data.
  abbrev pub event_of : Outcome (TransformedBlock G) → List (String × TransformedBlock G)
  event_of (failed e) = []
  event_of (done block) = if has_data block then (decimal block.block_number, block) ∷ [] else []

  abbrev pub events_of : List T → List (String × TransformedBlock G)
  events_of [] = []
  events_of (m ∷ ms) = event_of (transform m) ++ events_of ms

  module _ (keeps : Keeps) where
    produce_data-event :
        (o : Outcome (TransformedBlock G)) (s : sink.State)
        → keeps.events (produce_data o s).1 ≡ keeps.events s ++ event_of o
    produce_data-event (failed e) s = sym (append-nil (keeps.events s))
    produce_data-event (done block) s = elim (Bool-cases (has_data block)) [
      | inl some_data ↦ rw some_data (keeps.added (decimal block.block_number) block s)
      | inr no_data ↦ rw no_data (sym (append-nil (keeps.events s)))
    ]

    -- Let the producer keep the events that it is given. After any calls of `onData`, also ones that
    -- fail, it was given, in the order in which the transformations ended, exactly the transformed blocks
    -- that have data, each once and under the block's number as its key.
    pub run-events :
        (ms : List T) (s : sink.State) → keeps.events (run ms s) ≡ keeps.events s ++ events_of ms
    unfolding on_data
    run-events [] s = sym (append-nil (keeps.events s))
    run-events (m ∷ ms) s =
        run-events ms (on_data m s).1
        ∙ ap (λ es. es ++ events_of ms) (produce_data-event (transform m) s)
        ∙ append_assoc (keeps.events s) (event_of (transform m)) (events_of ms)
