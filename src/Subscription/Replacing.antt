-- ===== src/Subscription/Replacing.antt =====
-- What becomes of the workers of internal/block_subscription/block_subscription.ts that exit, and of
-- the calls that listen to them.
use chain_indexer_framework.Prelude.{
  ℕ, zero, suc, ◌+◌, ◌<◌, ◌≤◌, ◌≡◌, refl, sym, ap, ap₂, subst, ◌∙◌, true, false, String, none, some,
  List, [], ◌∷◌, map, length, get_elem?, arith,
}
use chain_indexer_framework.Subscription.State.{Block}
use chain_indexer_framework.Subscription.Worker.{get_block_from_worker}
use chain_indexer_framework.Subscription.Workers.{
  Worker, Pool, WorkerEvent, exits, answers, breaks, PoolCall, start_worker, start_workers,
  set_workers, on_exit, exit_thread, on_worker_event, call_at, hears_all, run_pool,
}
use chain_indexer_framework.Subscription.Gone.{IsGone, exit-IsGone, run_pool-IsGone, all_deaf}

get_elem?-map :
    {A B : Type 0} (f : A → B) (xs : List A) (i : ℕ) (x : A)
    → get_elem? xs i ≡ some x
    → get_elem? (map f xs) i ≡ some (f x)
get_elem?-map f [] i x h = absurd cc
get_elem?-map f (y ∷ xs) zero x h = cc
get_elem?-map f (y ∷ xs) (suc i) x h = get_elem?-map f xs i x h

within :
    (endpoints : List String) (i : ℕ) (endpoint : String)
    → get_elem? endpoints i ≡ some endpoint
    → i < length endpoints
within [] i endpoint h = absurd cc
within (e ∷ endpoints) zero endpoint h = omega arith
within (e ∷ endpoints) (suc i) endpoint h = omega (arith, within endpoints i endpoint h)

module _ {D : Type 0} where
  -- The worker at an index is a replacement, and its thread has this number.
  record Replaced (i t : ℕ) (pool : Pool D) : Type 0 where
    worker : Worker D
    at : get_elem? pool.workers i ≡ some worker
    named : worker.thread ≡ t
    unwatched : worker.watched ≡ false

  stays_named :
      (u fresh : ℕ) (w : Worker D)
      → w.watched ≡ false
      → ((exit_thread u fresh w).thread ≡ w.thread) × ((exit_thread u fresh w).watched ≡ false)
  unfolding exit_thread on_exit
  stays_named u fresh w h = ground (arith, h)

  event-Replaced :
      (i t : ℕ) (e : WorkerEvent) (pool : Pool D)
      → Replaced i t pool
      → Replaced i t (on_worker_event e pool)
  unfolding on_worker_event
  event-Replaced i t (exits u) pool r = record {
    worker = exit_thread u pool.fresh r.worker;
    at = get_elem?-map (exit_thread u pool.fresh) pool.workers i r.worker r.at;
    named = (stays_named u pool.fresh r.worker r.unwatched).0 ∙ r.named;
    unwatched = (stays_named u pool.fresh r.worker r.unwatched).1;
  }
  event-Replaced i t (answers u id x) pool r = r
  event-Replaced i t (breaks u x) pool r = r

  run_pool-Replaced :
      (i t : ℕ) (es : List WorkerEvent) (pool : Pool D)
      → Replaced i t pool
      → Replaced i t (run_pool es pool)
  run_pool-Replaced i t [] pool r = r
  run_pool-Replaced i t (e ∷ es) pool r =
      run_pool-Replaced i t es (on_worker_event e pool) (event-Replaced i t e pool r)

  event-fresh : (e : WorkerEvent) (pool : Pool D) → pool.fresh ≤ (on_worker_event e pool).fresh
  unfolding on_worker_event
  event-fresh (exits u) pool = omega arith
  event-fresh (answers u id x) pool = omega arith
  event-fresh (breaks u x) pool = omega arith

  run_pool-fresh : (es : List WorkerEvent) (pool : Pool D) → pool.fresh ≤ (run_pool es pool).fresh
  run_pool-fresh [] pool = omega arith
  run_pool-fresh (e ∷ es) pool =
      omega (arith, event-fresh e pool, run_pool-fresh es (on_worker_event e pool))

  started_at :
      (data_of : String → D) (k i : ℕ) (endpoints : List String) (endpoint : String)
      → get_elem? endpoints i ≡ some endpoint
      → get_elem? (start_workers data_of k endpoints) i
        ≡ some (start_worker (k + i) true (data_of endpoint))
  unfolding start_workers start_worker
  started_at data_of k i [] endpoint h = absurd cc
  started_at data_of k zero (e ∷ endpoints) endpoint h =
      ap₂ (λ t x. some (start_worker t true (data_of x))) (omega arith) cc
  started_at data_of k (suc i) (e ∷ endpoints) endpoint h =
      started_at data_of (suc k) i endpoints endpoint h
      ∙ ap (λ t. some (start_worker t true (data_of endpoint))) (omega arith)

  new_worker_exits :
      (data_of : String → D) (endpoints : List String) (i : ℕ) (endpoint : String)
      → get_elem? endpoints i ≡ some endpoint
      → get_elem? (on_worker_event (exits i) (set_workers data_of endpoints)).workers i
        ≡ some (start_worker (length endpoints) false (data_of endpoint))
  unfolding on_worker_event set_workers exit_thread on_exit start_worker
  new_worker_exits data_of endpoints i endpoint h =
      get_elem?-map (exit_thread i (length endpoints)) (start_workers data_of 0 endpoints) i _
        (started_at data_of 0 i endpoints endpoint h)
      ∙ ground arith

  first_exit-Replaced :
      (data_of : String → D) (endpoints : List String) (i : ℕ) (endpoint : String)
      → get_elem? endpoints i ≡ some endpoint
      → Replaced i (length endpoints) (on_worker_event (exits i) (set_workers data_of endpoints))
  unfolding start_worker
  first_exit-Replaced data_of endpoints i endpoint h = record {
    worker = start_worker (length endpoints) false (data_of endpoint);
    at = new_worker_exits data_of endpoints i endpoint h;
    named = refl;
    unwatched = refl;
  }

  first_exit_fresh :
      (data_of : String → D) (endpoints : List String) (i : ℕ)
      → (on_worker_event (exits i) (set_workers data_of endpoints)).fresh ≡ suc (length endpoints)
  unfolding on_worker_event set_workers
  first_exit_fresh data_of endpoints i = refl

  first_exit-IsGone :
      (data_of : String → D) (endpoints : List String) (i : ℕ)
      → i < length endpoints
      → IsGone i (on_worker_event (exits i) (set_workers data_of endpoints))
  unfolding set_workers
  first_exit-IsGone data_of endpoints i h = exit-IsGone i (set_workers data_of endpoints) h

  -- A call at a replacement whose thread is gone.
  unsettled_at :
      (empty : Block) (i t call_back_id : ℕ) (es : List WorkerEvent) (pool : Pool D)
      → Replaced i t pool
      → IsGone t pool
      → (c : PoolCall) × (call_at i call_back_id pool ≡ some c)
        × ((hears_all empty es pool c).call.settled ≡ none)
  unfolding get_block_from_worker
  unsettled_at empty i t id es pool r g =
      let c : PoolCall = record { thread = r.worker.thread; call = get_block_from_worker id } in
      let gone : IsGone r.worker.thread pool = subst (λ u. IsGone u pool) (sym r.named) g in
      (c, rw r.at refl, ap (λ x. x.call.settled) (all_deaf empty es pool c gone))

  -- When the worker of an endpoint exits, a new one with the same data takes its index; a call that
  -- waited for the old one is never settled, whatever the workers do from then on. When the new one
  -- exits too, after whatever happens in between, nothing takes its index any more: no call at that
  -- index is ever settled, whenever it is made.
  pub exits_twice-unsettled :
      (empty : Block) (data_of : String → D) (endpoints : List String) (i : ℕ) (endpoint : String)
      (waiting call_back_id : ℕ) (es fs gs : List WorkerEvent)
      → get_elem? endpoints i ≡ some endpoint
      → let first = on_worker_event (exits i) (set_workers data_of endpoints) in
        let second = on_worker_event (exits (length endpoints)) (run_pool es first) in
        let later = run_pool fs second in
        (get_elem? first.workers i
          ≡ some (start_worker (length endpoints) false (data_of endpoint)))
        × ((hears_all empty es first
              (record { thread = i; call = get_block_from_worker waiting })).call.settled
            ≡ none)
        × ((c : PoolCall) × (call_at i call_back_id later ≡ some c)
            × ((hears_all empty gs later c).call.settled ≡ none))
  unfolding get_block_from_worker
  exits_twice-unsettled empty data_of endpoints i endpoint waiting id es fs gs h =
      let n = length endpoints in
      let first = on_worker_event (exits i) (set_workers data_of endpoints) in
      let between = run_pool es first in
      let second = on_worker_event (exits n) between in
      let replaced =
        run_pool-Replaced i n es first (first_exit-Replaced data_of endpoints i endpoint h) in
      let below : n < between.fresh =
        omega (arith, run_pool-fresh es first, first_exit_fresh data_of endpoints i) in
      (
        new_worker_exits data_of endpoints i endpoint h,
        ap (λ x. x.call.settled)
            (all_deaf empty es first (record { thread = i; call = get_block_from_worker waiting })
              (first_exit-IsGone data_of endpoints i (within endpoints i endpoint h))),
        unsettled_at empty i n id gs (run_pool fs second)
            (run_pool-Replaced i n fs second (event-Replaced i n (exits n) between replaced))
            (run_pool-IsGone n fs second (exit-IsGone n between below)),
      )
