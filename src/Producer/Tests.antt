-- ===== src/Producer/Tests.antt =====
-- The producer's theorems at concrete blocks.
use chain_indexer_framework.Prelude.{
  ◌≡◌, ◌≢◌, ◌↔◌, ◌+◌, ◌∙◌, refl, sym, inl, inr, false, List, [], ◌∷◌, some, arith, String, All,
}
use chain_indexer_framework.Prelude.Int.{ℤ, pos, negsuc, ◌+ℤ◌, ◌-ℤ◌, ◌≤ℤ◌}
use chain_indexer_framework.Prelude.Text.{str_eq_iff}
use chain_indexer_framework.Errors.Value.{JsValue, js_string}
use chain_indexer_framework.Queue.{Queue, new_queue, enqueue, get_length, shift_by_n}
use chain_indexer_framework.Queue.Refines.{Holds, new_queue-Holds, enqueue-Holds}
use chain_indexer_framework.Store.{Outcome, done, failed, ProducedBlock, get}
use chain_indexer_framework.Store.Memory.{memory, memory-Documented, Contains}
use chain_indexer_framework.Store.Window.{HasDistinctNumbers, InWindow}
use chain_indexer_framework.Producer.Deliveries
use chain_indexer_framework.Producer.StartBlock.{RemoteBlock, start_at, get_start_block}
use chain_indexer_framework.Producer.Resume.{Setting, Verdict, get_start_block-Verdict}
use chain_indexer_framework.Producer.Deliveries.{
  take_next, add_block_to_mongo, Event, delivered, added, idle,
}
use chain_indexer_framework.Producer.Picking.{Picks, take_next-window, last_number}
use chain_indexer_framework.Producer.Processing.{Flagged, run, settle, processing_settles}
use chain_indexer_framework.Producer.Retries.{add_block_to_mongo_again}
use chain_indexer_framework.Prelude.{none, true, Option}
use chain_indexer_framework.Errors.Value.{text as js_text}
use chain_indexer_framework.KafkaProducer.Sending.{Sender}
use chain_indexer_framework.Producer.Life.{Life, start}
use chain_indexer_framework.Producer.Listening.{IsHeard, restarts, restarts-IsHeard}
use chain_indexer_framework.Producer.Starting.{
  all_well, stops_well, no_start_block, hear, start_again-heard_twice,
}
use chain_indexer_framework.Queue.{shift, clear, is_empty}
use chain_indexer_framework.Subscription.State.{Block, Subscription, new_subscription, finite}
use chain_indexer_framework.Subscription.Live.{
  begin_subscription, subscribe_to_logs, on_log, accept_log, enqueue_missed_blocks, enqueue_rounds,
  has_missed_blocks, process_queue, queue_loop, on_subscription_error,
}
use chain_indexer_framework.Subscription.Walks.{requested}
use chain_indexer_framework.Subscription.Requests
use chain_indexer_framework.Subscription.Filling.{
  Event as FillEvent, fills, finishes_job, IsAnswer, AreAnswers,
}
use chain_indexer_framework.Producer.Resumption.{
  Resumes, live_from, filling_from, restarted, restart-no_gap,
}

abbrev five : ProducedBlock
five = record { number = pos 5; hash = "e" }

abbrev six : ProducedBlock
six = record { number = pos 6; hash = "stale" }

abbrev docs : List ProducedBlock
docs = six ∷ five ∷ []

abbrev chain : ℤ → String
chain n = "e"

abbrev node : ℤ → Outcome RemoteBlock
node n = done (record { number = n; hash = chain n })

six_not_five : six.number ≢ five.number
six_not_five e = cc

docs-distinct : HasDistinctNumbers memory docs
docs-distinct c d (inl e) (inl f) same = e ∙ sym f
docs-distinct c d (inl e) (inr (inl f)) same = absurd (cc (e, f, same))
docs-distinct c d (inr (inl e)) (inl f) same = absurd (cc (e, f, same))
docs-distinct c d (inr (inl e)) (inr (inl f)) same = e ∙ sym f
docs-distinct c d x (inr (inr f)) same = absurd f
docs-distinct c d (inr (inr e)) x same = absurd e

above_one : (c : ProducedBlock) → Contains docs c → pos 2 ≤ℤ c.number
above_one c (inl e) = rw e (omega arith)
above_one c (inr (inl e)) = rw e (omega arith)
above_one c (inr (inr e)) = absurd e

setting : Setting memory node docs
setting = record {
  remote = chain;
  reached = λ n. refl;
  answers = λ f. (_, refl);
  distinct = docs-distinct;
  above_one = above_one;
}

resumes_after_five : get_start_block memory js_string node (pos 0) docs 10 ≡ start_at (pos 6)
unfolding get_start_block get ◌+ℤ◌ ◌-ℤ◌
resumes_after_five = refl

get_start_block-Verdict_example :
    ((j : ℤ) × (get_start_block memory js_string node (pos 0) docs 10 ≡ start_at j)
      × Verdict memory memory-Documented js_string node (pos 0) docs setting (pos 6) 10 j)
    × ((c : ProducedBlock) → Contains docs c → c.number ≤ℤ pos 6)
unfolding get
get_start_block-Verdict_example =
    get_start_block-Verdict memory memory-Documented js_string node (pos 0) docs setting 10 six refl

hash_differs : ◌≢◌ {A = String} "e" "stale"
hash_differs = ground (arith, str_eq_iff "e" "stale")

abbrev seven : ProducedBlock
seven = record { number = pos 7; hash = "g" }

abbrev three_waiting : Queue ProducedBlock
three_waiting = enqueue seven (enqueue six (enqueue five new_queue))

three_waiting-Holds : Holds three_waiting (five ∷ six ∷ seven ∷ [])
three_waiting-Holds =
    enqueue-Holds seven
      (enqueue-Holds six (enqueue-Holds five (new_queue-Holds {A = ProducedBlock})))

picks_the_second : (take_next 1 three_waiting).0 ≡ some six
unfolding take_next enqueue new_queue get_length shift_by_n
picks_the_second = refl

take_next-window_example :
    (p : Picks 1
      (five ∷ six ∷ seven ∷ [])
      (take_next 1 three_waiting).0
      (take_next 1 three_waiting).1)
    × (All (λ c. ¬ InWindow (last_number (pos 5) (five ∷ six ∷ seven ∷ [])) 1 c) p.skipped
        × All (InWindow (last_number (pos 5) (five ∷ six ∷ seven ∷ [])) 1) (p.block ∷ p.rest))
unfolding ◌+ℤ◌
take_next-window_example =
    take_next-window 1 three_waiting (pos 5) five (six ∷ seven ∷ []) three_waiting-Holds
      (refl, (refl, (refl, tt)))

abbrev course : List (Event memory "at" 1)
course =
    delivered (record { partition = pos 0; opaque = five })
    ∷ delivered (record { partition = pos 0; opaque = six })
    ∷ delivered (record { partition = negsuc 0; opaque = seven })
    ∷ added
    ∷ []

processing_settles_example :
    let p = run memory "at" 1 course (idle memory "at" 1 []) in
    Flagged memory "at" 1 p.mongo_insert_in_process p.in_flight
    × ((settle memory "at" 1 (get_length p.queue + 1) p).mongo_insert_in_process ≡ false)
processing_settles_example = processing_settles memory "at" 1 course []

add_block_to_mongo_again_example :
    ((e : JsValue) × ((add_block_to_mongo memory "at" 2
          (record { number = pos 6; hash = "e" })
          4
          docs).0
        ≡ failed e))
    × ((d : ProducedBlock)
        → Contains
            (add_block_to_mongo memory "at" 2 (record { number = pos 6; hash = "e" }) 4 docs).1
            d
          ↔ Contains docs d)
add_block_to_mongo_again_example =
    add_block_to_mongo_again memory memory-Documented "at" 2 (record { number = pos 6; hash = "e" })
      4 docs six (inl refl) refl

abbrev fresh_sender : Sender
fresh_sender = record {
  producer_connected = false;
  producer_connecting = false;
  error_listeners = 0;
  disconnected_listeners = 0;
  emitted = [];
}

abbrev fresh_life : Life
fresh_life = record {
  force_stop = false;
  sender = fresh_sender;
  delivered_listeners = 0;
  subscribed = none;
  producing = [];
  errors = [];
}

restarts-IsHeard_example : IsHeard (
    restarts "at"
      ((stops_well, no_start_block (js_text "down")) ∷ (stops_well, all_well (pos 7)) ∷ [])
      fresh_life)
restarts-IsHeard_example =
    restarts-IsHeard "at"
      ((stops_well, no_start_block (js_text "down")) ∷ (stops_well, all_well (pos 7)) ∷ [])
      fresh_life (record { at_most_one = omega arith; one_subscribed = inl refl })

abbrev sighted : List Requests.Event
sighted =
    Requests.logs (record { block_hash = some "h"; block_number = finite (pos 8) })
    ∷ Requests.errs (js_text "gone")
    ∷ []

abbrev filled : List FillEvent
filled =
    fills
      (record { block = record { number = pos 6; hash = "f"; parent_hash = "e" }; error = none })
    ∷ finishes_job 0
    ∷ []

abbrev answer_six : ℤ → Block
answer_six n = record { number = pos 6; hash = "f"; parent_hash = "e" }

answers_six :
    (a : Option ℤ)
    → IsAnswer answer_six a
        (record { block = record { number = pos 6; hash = "f"; parent_hash = "e" }; error = none })
answers_six none = tt
answers_six (some n) = λ h. refl

filled-AreAnswers : AreAnswers answer_six "at" filled (
    filling_from
      (pos 9)
      3
      2
      (restarted memory memory-Documented js_string node
        (pos 0)
        docs
        setting
        "at"
        10
        fresh_life).0.subscribed
      new_subscription)
filled-AreAnswers = (answers_six _, tt)

restart-no_gap_example :
    let (l', outcome) =
      restarted memory memory-Documented js_string node (pos 0) docs setting "at" 10 fresh_life in
    (outcome ≡ done tt)
    × ((j : ℤ) × (j ≤ℤ pos 6 +ℤ pos 1)
        × Resumes answer_six "at"
            (pos 9)
            (pos 7)
            3
            2
            sighted
            filled
            new_subscription
            l'.subscribed
            j)
unfolding get
restart-no_gap_example =
    restart-no_gap memory memory-Documented js_string node (pos 0) docs setting answer_six "at" 10
      fresh_life six (pos 9) (pos 7) 3 2 sighted filled new_subscription refl refl (omega arith)
      filled-AreAnswers

-- Block 6 of the old chain is requested again, and 7 and 8 after it.
abbrev resumed : Subscription
resumed = Requests.run "at" sighted (live_from (pos 9) (some (pos 6)) new_subscription)

requests_from_six : requested resumed.log ≡ pos 6 ∷ pos 7 ∷ pos 8 ∷ []
unfolding live_from begin_subscription subscribe_to_logs new_subscription on_log accept_log
    on_subscription_error enqueue_missed_blocks enqueue_rounds has_missed_blocks process_queue
    queue_loop enqueue shift clear is_empty get_length new_queue ◌+ℤ◌ ◌-ℤ◌
requests_from_six = refl

abbrev busy_pending : Deliveries.Pending memory "at" 1
busy_pending = record (idle memory "at" 1 []) {
  in_flight = seven ∷ [];
  mongo_insert_in_process = true;
}

abbrev delivered_five : Deliveries.DeliveryReport
delivered_five = record { partition = pos 0; opaque = five }

start_again-heard_twice_example :
    let first = start "at" (no_start_block (js_text "down")) fresh_life in
    let second = start "at" (all_well (pos 7)) first.0 in
    (first.1 ≡ failed (js_text "down"))
    × (second.1 ≡ done tt)
    × (second.0.errors ≡ fresh_life.errors)
    × ((hear memory "at" 1 second.0.delivered_listeners delivered_five busy_pending).queue
        ≡ enqueue five (enqueue five busy_pending.queue))
start_again-heard_twice_example =
    start_again-heard_twice memory "at" 1 (js_text "down") (pos 7) fresh_life delivered_five
      busy_pending refl refl refl
