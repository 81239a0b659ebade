-- ===== src/Consumer/Tests.antt =====
-- Concrete runs of the consumer.
use chain_indexer_framework.Prelude.{ℕ, ◌≡◌, refl, true, false, List, [], ◌∷◌, ◌++◌, none, some}
use chain_indexer_framework.Prelude.Int.{pos}
use chain_indexer_framework.Errors.Value.{text}
use chain_indexer_framework.Queue.{new_queue, enqueue, get_length, front, is_empty}
use chain_indexer_framework.Store.{Outcome, done, failed}
use chain_indexer_framework.Consumer.State.{Message, Consumer, ConsumerConfig}
use chain_indexer_framework.Consumer.Steps.{
  new_consumer, on_settled, process_queue, queue_loop, handle_backpressure, new_element,
}
use chain_indexer_framework.Consumer.Receiving.{accept_message}
use chain_indexer_framework.Consumer.Attempts.{Settled, retry_promise, retry_promise-Settled}
use chain_indexer_framework.Consumer.Frame.{committed}
use chain_indexer_framework.Consumer.Serving.{Serves}
use chain_indexer_framework.Consumer.Order.{Served, started, accepted, settled, Served-Serves}
use chain_indexer_framework.Consumer.Stuck.{Event, receives, starts, settles, run, run-stuck}
use chain_indexer_framework.Prelude.{String}
use chain_indexer_framework.Consumer.Receiving.{deserialize}
use chain_indexer_framework.Consumer.Overlap.{
  Decoding, Arrival, arrives, is_decoded, arrival, run_arrivals,
}
use chain_indexer_framework.Consumer.Arrivals.{decoder}

abbrev first : Message
first = record { topic = "blocks"; partition = pos 0; offset = 4; value = none }

abbrev second : Message
second = record first { offset = 5 }

abbrev config : ConsumerConfig
config = record { max_buffer_length = some 2; max_retries = some 1; start_offsets = [] }

abbrev fresh : Consumer
fresh = record (new_consumer ("blocks" ∷ []) ("blocks" ∷ []) config) { has_observer = true }

abbrev commits_all : ℕ → Outcome (Unit {0})
commits_all n = done tt

abbrev one_waits : Consumer
one_waits = accept_message false first fresh

abbrev two_wait : Consumer
two_wait = accept_message false second one_waits

abbrev attempts : ℕ → Outcome (Unit {0})
attempts n = failed (text "busy")

retry_promise-Settled_example : Settled "at" attempts 2 (retry_promise "at" attempts 2)
retry_promise-Settled_example = retry_promise-Settled "at" attempts 2

paused_at_two : two_wait.consumer_paused ≡ true
unfolding accept_message new_consumer new_queue process_queue handle_backpressure enqueue get_length
    queue_loop new_element is_empty front
paused_at_two = refl

course :
    Served "at" commits_all false
      (([] ++ first ∷ []) ++ second ∷ [])
      (on_settled "at" commits_all (done tt) two_wait)
course =
    settled (accepted (accepted (started ("blocks" ∷ []) ("blocks" ∷ []) config) first) second)
      (done tt) tt

Served-Serves_example :
    Serves (first ∷ second ∷ []) (on_settled "at" commits_all (done tt) two_wait)
Served-Serves_example = Served-Serves "at" commits_all (λ i. refl) course

abbrev tired : Consumer
tired = record one_waits { error_count = 1 }

abbrev later : List Event
later = starts true none ∷ receives (done tt) second ∷ settles (done tt) ∷ []

run-stuck_example :
    let last =
      run "at" false
        (λ t v. done v)
        commits_all
        later
        (on_settled "at" commits_all (failed (text "down")) tired) in
    (last.queue_is_processing ≡ true)
    × (last.awaited ≡ none)
    × (committed last.log ≡ committed tired.log)
unfolding accept_message new_consumer new_queue process_queue handle_backpressure enqueue get_length
    queue_loop new_element is_empty front
run-stuck_example =
    run-stuck "at" false (λ t v. done v) commits_all later (text "down") tired
      (new_element false first) refl refl refl

abbrev as_it_is : String → String → String
as_it_is topic v = v

-- The decoder is done with the second message first.
abbrev overtaking : List Arrival
overtaking = arrives first ∷ arrives second ∷ is_decoded 1 ∷ is_decoded 0 ∷ []

abbrev decodes_nothing : Decoding
decodes_nothing = record { consumer = fresh; decoding = [] }

-- It enters the queue first, and is committed first.
second_before_first :
    (run_arrivals "at" false (decoder "at" false as_it_is) overtaking decodes_nothing).consumer
    ≡ accept_message false first (accept_message false second fresh)
unfolding arrival deserialize
second_before_first = refl
