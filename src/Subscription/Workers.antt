-- ===== src/Subscription/Workers.antt =====
-- The workers of internal/block_subscription/block_subscription.ts and erigon_block_polling.ts: what
-- `setWorkers` starts, what stands in for a worker that exits, and a call of `getBlockFromWorker` at
-- one. A thread is named by a number, and a thread that has exited sends nothing.
use chain_indexer_framework.Prelude.{
  ℕ, suc, ◌==◌, Bool, true, false, ◌&&◌, ◌||◌, String, Option, none, some, List, [], ◌∷◌, map,
  length, get_elem?, if◌then◌else◌, is_some,
}
use chain_indexer_framework.Prelude.Text.{str_eq}
use chain_indexer_framework.Errors.Value.{JsValue}
use chain_indexer_framework.Subscription.State.{Block, WorkerResult, Subscription}
use chain_indexer_framework.Subscription.Worker.{
  WorkerCall, get_block_from_worker, on_message, on_worker_error,
}

-- `workerData`, of `BlockSubscription` and of `ErigonBlockPoller`.
pub record WorkerData : Type 0 where
  pub endpoint : String
  pub max_retries : ℕ
  pub alternate_endpoint : Option String
  pub rpc_timeout : Option ℕ

pub record HttpWorkerData : Type 0 where
  pub endpoint : String
  pub rpc_api_key : String
  pub max_retries : ℕ
  pub rpc_timeout : ℕ

-- `alternateEndpoint ? alternateEndpoint : undefined`
abbrev given_endpoint : Option String → Option String
given_endpoint none = none
given_endpoint (some text) = if str_eq text "" then none else some text

unfoldable pub worker_data :
    (max_retries : ℕ) (alternate : Option String) (rpc_timeout : Option ℕ) → String → WorkerData
worker_data max_retries alternate rpc_timeout endpoint = record {
  endpoint = endpoint;
  max_retries = max_retries;
  alternate_endpoint = given_endpoint alternate;
  rpc_timeout = rpc_timeout;
}

unfoldable pub http_worker_data :
    (rpc_api_key : String) (max_retries polling_timeout : ℕ) → String → HttpWorkerData
http_worker_data rpc_api_key max_retries polling_timeout endpoint = record {
  endpoint = endpoint;
  rpc_api_key = rpc_api_key;
  max_retries = max_retries;
  rpc_timeout = polling_timeout;
}

-- One of `workers`; a watched one has the "exit" listener.
pub record Worker (D : Type 0) : Type 0 where
  pub thread : ℕ
  pub started_with : D
  pub watched : Bool
  pub runs : Bool

-- `workers`, with the number of the thread that is started next.
pub record Pool (D : Type 0) : Type 0 where
  pub workers : List (Worker D)
  pub fresh : ℕ

-- What a thread does to the outside: it exits, it answers the call with that identifier, or an
-- exception of it that nothing caught reaches the listeners for errors.
pub data WorkerEvent : Type 0 where
  exits : (thread : ℕ) → WorkerEvent
  answers : (thread call_back_id : ℕ) → WorkerResult → WorkerEvent
  breaks : (thread : ℕ) → JsValue → WorkerEvent

-- A call of `getBlockFromWorker`, with the thread of the worker that it listens to.
pub record PoolCall : Type 0 where
  pub thread : ℕ
  pub call : WorkerCall

module _ {D : Type 0} where
  unfoldable pub start_worker : (thread : ℕ) (watched : Bool) → D → Worker D
  start_worker thread watched started_with = record {
    thread = thread;
    started_with = started_with;
    watched = watched;
    runs = true;
  }

  -- The `for` loop, from `i` on; each worker gets its listener.
  unfoldable pub start_workers : (String → D) → (i : ℕ) → List String → List (Worker D)
  unfolding start_worker
  start_workers data_of i [] = []
  start_workers data_of i (endpoint ∷ endpoints) =
      start_worker i true (data_of endpoint) ∷ start_workers data_of (suc i) endpoints

  unfoldable pub set_workers : (String → D) → List String → Pool D
  unfolding start_workers
  set_workers data_of endpoints = record {
    workers = start_workers data_of 0 endpoints;
    fresh = length endpoints;
  }

  -- The "exit" listener puts a new worker with the same data in the place of the one that has exited;
  -- it does not listen to the exit of the new one.
  unfoldable pub on_exit : (fresh : ℕ) → Worker D → Worker D
  unfolding start_worker
  on_exit fresh worker =
      if worker.watched
      then start_worker fresh false worker.started_with
      else record worker { runs = false }

  unfoldable pub exit_thread : (thread fresh : ℕ) → Worker D → Worker D
  unfolding on_exit
  exit_thread thread fresh worker =
      if worker.runs && (thread == worker.thread) then on_exit fresh worker else worker

  abbrev pub has_running : (thread : ℕ) → List (Worker D) → Bool
  has_running thread [] = false
  has_running thread (worker ∷ workers) =
      (worker.runs && (thread == worker.thread)) || has_running thread workers

  unfoldable pub on_worker_event : WorkerEvent → Pool D → Pool D
  unfolding exit_thread
  on_worker_event (exits thread) pool = record {
    workers = map (exit_thread thread pool.fresh) pool.workers;
    fresh = suc pool.fresh;
  }
  on_worker_event (answers thread id result) pool = pool
  on_worker_event (breaks thread error) pool = pool

  abbrev call_to : (call_back_id : ℕ) → Option (Worker D) → Option PoolCall
  call_to call_back_id none = none
  call_to call_back_id (some worker) =
      some (record { thread = worker.thread; call = get_block_from_worker call_back_id })

  -- `getBlockFromWorker(blockNumber, workerId)`; out of range there is no worker, and no promise that
  -- could settle.
  abbrev pub call_at : (worker_id call_back_id : ℕ) → Pool D → Option PoolCall
  call_at worker_id call_back_id pool = call_to call_back_id (get_elem? pool.workers worker_id)

  module _ (empty : Block) where
    -- What the listeners of a call hear of an event.
    unfoldable pub hears : WorkerEvent → Pool D → PoolCall → PoolCall
    unfolding on_message on_worker_error
    hears (exits thread) pool c = c
    hears (answers thread id result) pool c =
        if has_running thread pool.workers && (thread == c.thread)
        then record c { call = on_message id result c.call }
        else c
    hears (breaks thread error) pool c =
        if has_running thread pool.workers && (thread == c.thread)
        then record c { call = on_worker_error empty error c.call }
        else c

    unfoldable pub hears_all : List WorkerEvent → Pool D → PoolCall → PoolCall
    unfolding hears on_worker_event
    hears_all [] pool c = c
    hears_all (e ∷ es) pool c = hears_all es (on_worker_event e pool) (hears e pool c)

  abbrev pub run_pool : List WorkerEvent → Pool D → Pool D
  run_pool [] pool = pool
  run_pool (e ∷ es) pool = run_pool es (on_worker_event e pool)

-- `isBackFillingInProgress`
unfoldable pub is_back_filling_in_progress : Subscription → Bool
is_back_filling_in_progress s = is_some s.active_back_filling_id

-- `setWorkers` of the two classes, and `getBlockFromWorker` of `ErigonBlockPoller`, which is that of
-- `BlockSubscription`.
unfoldable pub set_block_workers :
    (max_retries : ℕ) (alternate : Option String) (rpc_timeout : Option ℕ)
    → List String
    → Pool WorkerData
unfolding set_workers worker_data
set_block_workers max_retries alternate rpc_timeout =
    set_workers (worker_data max_retries alternate rpc_timeout)

unfoldable pub set_http_workers :
    (rpc_api_key : String) (max_retries polling_timeout : ℕ) → List String → Pool HttpWorkerData
unfolding set_workers http_worker_data
set_http_workers rpc_api_key max_retries polling_timeout =
    set_workers (http_worker_data rpc_api_key max_retries polling_timeout)

abbrev pub http_call_at : (worker_id call_back_id : ℕ) → Pool HttpWorkerData → Option PoolCall
http_call_at = call_at
