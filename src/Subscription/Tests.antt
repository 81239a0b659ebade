-- ===== src/Subscription/Tests.antt =====
-- Concrete runs of the subscription.
use chain_indexer_framework.Prelude.{
  String, ◌≡◌, ◌≢◌, refl, ap, true, none, some, List, [], ◌∷◌, arith, length,
}
use chain_indexer_framework.Prelude.Int.{pos, ◌+ℤ◌, ◌-ℤ◌}
use chain_indexer_framework.Prelude.Text.{str_eq}
use chain_indexer_framework.Queue.{new_queue, enqueue, get_length, shift, clear, is_empty}
use chain_indexer_framework.Queue.Refines.{Holds}
use chain_indexer_framework.Subscription.State.{
  Block, finite, LogEvent, WorkerResult, reports, Subscription, new_subscription,
}
use chain_indexer_framework.Subscription.Live.{
  on_log, on_block, on_settled, chain_reorg, begin_subscription, subscribe_to_logs,
  enqueue_missed_blocks, has_missed_blocks, queue_loop, process_queue, accept_log,
  is_re_orged_missed, enqueue_rounds,
}
use chain_indexer_framework.Subscription.BackFill.{
  add_jobs, back_fill_loop, back_fill_blocks, hand_on, next_job, on_filled,
}
use chain_indexer_framework.Subscription.State.{given}
use chain_indexer_framework.Prelude.Int.{ℤ, eq_ℤ}
use chain_indexer_framework.Prelude.{if◌then◌else◌}
use chain_indexer_framework.Queue.Refines.{clear-Holds}
use chain_indexer_framework.Subscription.Walks.{Requests, requested}
use chain_indexer_framework.Subscription.Requests.{Event, logs, settles, run, run-Requests}
use chain_indexer_framework.Subscription.Keeping.{IsLinked}
use chain_indexer_framework.Subscription.Linked.{Happening, happen_all, happen_all-IsLinked}
use chain_indexer_framework.Subscription.Linked.{subscribes}
use chain_indexer_framework.Subscription.Linked
use chain_indexer_framework.Subscription.Filling.{span, AreAnswers}
use chain_indexer_framework.Subscription.Filling
use chain_indexer_framework.Subscription.FillOrder.{Fills, back_fill_blocks-IsInOrder}
use chain_indexer_framework.Subscription.FalseReorg.{back_fill_then_reorg}
use chain_indexer_framework.Store.{done}
use chain_indexer_framework.Subscription.Polling
use chain_indexer_framework.Subscription.PollOrder.{polling-IsInOrder}
use chain_indexer_framework.Subscription.PollOrder
use chain_indexer_framework.Subscription.Erigon.{new_poller}
use chain_indexer_framework.Subscription.ErigonLinked
use chain_indexer_framework.Subscription.ErigonLinked.{run_erigon, run_erigon-IsLinked}
use chain_indexer_framework.Prelude.{get_elem?, false}
use chain_indexer_framework.Prelude.Text.{str_eq_iff}
use chain_indexer_framework.Subscription.Worker.{get_block_from_worker}
use chain_indexer_framework.Subscription.Workers.{
  WorkerData, HttpWorkerData, worker_data, http_worker_data, Pool, exits, answers, PoolCall,
  start_worker, start_workers, set_workers, set_http_workers, on_worker_event, call_at,
  http_call_at, hears_all, hears, run_pool,
}
use chain_indexer_framework.Subscription.Worker
use chain_indexer_framework.Subscription.Replacing.{exits_twice-unsettled}

abbrev five : Block
five = record { number = pos 5; hash = "0x5"; parent_hash = "0x4" }

abbrev six : Block
six = record { number = pos 6; hash = "0x6"; parent_hash = "0x5" }

abbrev eight : Block
eight = record { number = pos 8; hash = "0x8"; parent_hash = "0x7" }

abbrev good : Block → WorkerResult
good block = record { block = block; error = none }

abbrev log_of : Block → LogEvent
log_of block = record { block_hash = some block.hash; block_number = finite block.number }

abbrev course : List Event
course = logs (log_of five) ∷ settles (good five) ∷ logs (log_of eight) ∷ logs (log_of five) ∷ []

abbrev begun : Subscription
begun = begin_subscription (pos 5) (pos 5) new_subscription

run-Requests_example : Requests begun (run "at" course begun)
run-Requests_example = run-Requests "at" course begun

requested_five_to_eight : requested (run "at" course begun).log ≡ pos 5 ∷ pos 6 ∷ pos 7 ∷ pos 8 ∷ []
unfolding begin_subscription new_subscription on_log on_settled accept_log enqueue_missed_blocks
    enqueue_rounds has_missed_blocks process_queue queue_loop enqueue shift clear is_empty
    get_length new_queue on_block is_re_orged_missed ◌+ℤ◌ ◌-ℤ◌ given
requested_five_to_eight = refl

abbrev happenings : List Happening
happenings =
    subscribes (pos 5) (pos 5)
    ∷ Linked.finds_latest (pos 6) (pos 5) 9 2
    ∷ Linked.logs (log_of five)
    ∷ Linked.settles (good five)
    ∷ Linked.logs (log_of six)
    ∷ Linked.settles (good six)
    ∷ []

new-IsLinked : IsLinked new_subscription
unfolding new_subscription
new-IsLinked = record { chain = tt; last = refl }

happen_all-IsLinked_example : IsLinked (happen_all "at" happenings new_subscription)
happen_all-IsLinked_example = happen_all-IsLinked "at" happenings new_subscription new-IsLinked

abbrev fillers : List Filling.Event
fillers = Filling.finishes_job 9 ∷ Filling.fills (good five) ∷ Filling.fills (good six) ∷ []

-- Blocks 5 and 6 are to be filled in.
abbrev to_fill : Subscription
to_fill = begin_subscription (pos 6) (pos 5) new_subscription

abbrev chain_at : ℤ → Block
chain_at n = if eq_ℤ n (pos 5) then five else six

to_fill-Holds : Holds to_fill.queue []
unfolding begin_subscription
to_fill-Holds = clear-Holds new_subscription.queue

fillers-AreAnswers : AreAnswers chain_at "at" fillers (back_fill_blocks 9 2 to_fill)
unfolding begin_subscription new_subscription back_fill_blocks add_jobs back_fill_loop next_job
    on_filled hand_on given clear enqueue shift is_empty get_length ◌+ℤ◌
fillers-AreAnswers = (λ h. refl, (λ h. refl, tt))

back_fill_blocks-IsInOrder_example :
    Fills chain_at to_fill (Filling.run "at" fillers (back_fill_blocks 9 2 to_fill))
back_fill_blocks-IsInOrder_example =
    back_fill_blocks-IsInOrder chain_at "at" 9 2 fillers to_fill to_fill-Holds fillers-AreAnswers

-- Both blocks reach the observer.
back_filled_both :
    Filling.back_filled (Filling.run "at" fillers (back_fill_blocks 9 2 to_fill)).log
    ≡ five ∷ six ∷ []
unfolding begin_subscription new_subscription back_fill_blocks add_jobs back_fill_loop next_job
    on_filled hand_on given clear enqueue shift is_empty get_length ◌+ℤ◌
back_filled_both = refl

abbrev emitted_five : Subscription
emitted_five = record begun { last_emitted_block = some five }

other_parent : five.hash ≢ eight.parent_hash
other_parent h = ground (arith, ap (λ t. str_eq t "0x5") h)

back_fill_then_reorg_example :
    let live = subscribe_to_logs (
      begin_subscription
        (pos 60)
        (pos 8)
        (Filling.run "at" fillers (back_fill_blocks 9 2 emitted_five))) in
    ((on_block "at" eight live).fatal_error ≡ true)
    × ((on_block "at" eight live).log ≡ reports chain_reorg ∷ live.log)
back_fill_then_reorg_example =
    back_fill_then_reorg "at" 9 2 fillers (pos 60) (pos 8) five eight emitted_five refl
      (omega arith) other_parent

abbrev polling : List Polling.Event
polling =
    Polling.answers (done (pos 6))
    ∷ Polling.polls (done five)
    ∷ Polling.polls (done six)
    ∷ Polling.sets none
    ∷ []

polling-IsInOrder_example :
    let numbers =
      PollOrder.handed (Polling.run "at" polling (Polling.start_polling 9 (pos 5))).log in
    numbers ≡ span (pos 5) (length numbers)
polling-IsInOrder_example = polling-IsInOrder "at" 9 (pos 5) polling

polled_five_and_six :
    PollOrder.handed (Polling.run "at" polling (Polling.start_polling 9 (pos 5))).log
    ≡ pos 5 ∷ pos 6 ∷ []
unfolding Polling.start_polling Polling.while_head Polling.for_head Polling.on_latest Polling.hand
    ◌+ℤ◌ ◌-ℤ◌
polled_five_and_six = refl

abbrev as_it_is : String → String
as_it_is s = s

abbrev erigon_course : List (ErigonLinked.Event as_it_is "at")
erigon_course =
    ErigonLinked.subscribes 9 (pos 5)
    ∷ ErigonLinked.answers (done (pos 6))
    ∷ ErigonLinked.settles (good five)
    ∷ ErigonLinked.settles (good six)
    ∷ []

new_poller-IsLinked : ErigonLinked.IsLinked as_it_is (new_poller 1)
unfolding new_poller
new_poller-IsLinked = record { chain = tt; saved = refl }

run_erigon-IsLinked_example :
    ErigonLinked.IsLinked as_it_is (run_erigon as_it_is "at" erigon_course (new_poller 1))
run_erigon-IsLinked_example =
    run_erigon-IsLinked as_it_is "at" erigon_course (new_poller 1) new_poller-IsLinked

abbrev data_of : String → WorkerData
data_of endpoint = record {
  endpoint = endpoint;
  max_retries = 2;
  alternate_endpoint = none;
  rpc_timeout = none;
}

exits_twice-unsettled_example :
    let first = on_worker_event (exits 1) (set_workers data_of ("a" ∷ "b" ∷ [])) in
    let second = on_worker_event (exits 2) (run_pool (exits 0 ∷ []) first) in
    let later = run_pool [] second in
    (get_elem? first.workers 1 ≡ some (start_worker 2 false (data_of "b")))
    × ((hears_all five
          (exits 0 ∷ [])
          first
          (record { thread = 1; call = get_block_from_worker 70 })).call.settled
        ≡ none)
    × ((c : PoolCall) × (call_at 1 71 later ≡ some c)
        × ((hears_all five (answers 2 71 (good five) ∷ []) later c).call.settled ≡ none))
exits_twice-unsettled_example =
    exits_twice-unsettled five data_of ("a" ∷ "b" ∷ []) 1 "b" 70 71 (exits 0 ∷ []) []
      (answers 2 71 (good five) ∷ []) refl

-- An empty alternate endpoint is none; a worker over HTTP gets the key.
block_worker_data : worker_data 2 (some "") none "b" ≡ data_of "b"
unfolding worker_data
block_worker_data = ground (arith, str_eq_iff "" "")

abbrev http_pool : Pool HttpWorkerData
http_pool = set_http_workers "key" 3 2000 ("a" ∷ [])

http_worker_answers :
    (c : PoolCall) × (http_call_at 0 9 http_pool ≡ some c)
    × ((hears_all five (answers 0 9 (good five) ∷ []) http_pool c).call.settled ≡ some (good five))
unfolding set_http_workers set_workers start_workers start_worker http_worker_data hears_all hears
    on_worker_event Worker.on_message get_block_from_worker given
http_worker_answers = (_, refl, refl)
