-- ===== src/Consumer/Frame.antt =====
-- The log of commits of the consumer in internal/kafka/consumer/abstract_consumer.ts, and the steps
-- that leave it alone.
use chain_indexer_framework.Prelude.{◌≡◌, refl, ◌∙◌, List, [], ◌∷◌, ◌++◌, arith}
use chain_indexer_framework.Consumer.State.{Message, Action, commits, Consumer}
use chain_indexer_framework.Consumer.Steps.{handle_backpressure}

abbrev pub add_commit : Action → List Message → List Message
add_commit (commits m) ms = ms ++ m ∷ []
add_commit other ms = ms

-- The messages whose offsets were committed, oldest first.
abbrev pub committed : List Action → List Message
committed [] = []
committed (a ∷ log) = add_commit a (committed log)

-- What a step that concerns no commit leaves alone.
pub record Frame (c c' : Consumer) : Type 0 where
  pub processing : c'.queue_is_processing ≡ c.queue_is_processing
  pub awaited : c'.awaited ≡ c.awaited
  pub commits_kept : committed c'.log ≡ committed c.log

pub Frame-refl : (c : Consumer) → Frame c c
Frame-refl c = record { processing = refl; awaited = refl; commits_kept = refl }

pub Frame-trans : {a b c : Consumer} → Frame a b → Frame b c → Frame a c
Frame-trans f g = record {
  processing = g.processing ∙ f.processing;
  awaited = g.awaited ∙ f.awaited;
  commits_kept = g.commits_kept ∙ f.commits_kept;
}

pub handle_backpressure-Frame :
    (message : Message) (c : Consumer)
    → Frame c (handle_backpressure message c)
      × ((handle_backpressure message c).queue ≡ c.queue)
      × ((handle_backpressure message c).has_observer ≡ c.has_observer)
      × ((handle_backpressure message c).max_retries ≡ c.max_retries)
unfolding handle_backpressure
handle_backpressure-Frame message c = (
  record { processing = ground arith; awaited = ground arith; commits_kept = ground arith },
  ground arith,
  ground arith,
  ground arith,
)
