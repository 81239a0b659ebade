-- ===== src/Subscription/Gone.antt =====
-- The threads of the workers of internal/block_subscription/block_subscription.ts that have exited.
use chain_indexer_framework.Prelude.{
  ℕ, ◌<◌, ◌==◌, ◌≡◌, refl, ap, ◌∙◌, inl, inr, false, ◌&&◌, List, [], ◌∷◌, map, arith, Bool-cases,
}
use chain_indexer_framework.Subscription.State.{Block}
use chain_indexer_framework.Subscription.Workers.{
  Worker, Pool, WorkerEvent, exits, answers, breaks, PoolCall, start_worker, on_exit, exit_thread,
  has_running, on_worker_event, hears, hears_all, run_pool,
}

module _ {D : Type 0} where
  -- A thread that was started and runs in no worker.
  pub record IsGone (thread : ℕ) (pool : Pool D) : Type 0 where
    pub silent : has_running thread pool.workers ≡ false
    pub started : thread < pool.fresh

  exited_elsewhere :
      (t u fresh : ℕ) (w : Worker D)
      → (w.runs && (t == w.thread)) ≡ false
      → t < fresh
      → ((exit_thread u fresh w).runs && (t == (exit_thread u fresh w).thread)) ≡ false
  unfolding exit_thread on_exit start_worker
  exited_elsewhere t u fresh w h below = ground (arith, h, below)

  exited_itself :
      (t fresh : ℕ) (w : Worker D)
      → t < fresh
      → ((exit_thread t fresh w).runs && (t == (exit_thread t fresh w).thread)) ≡ false
  unfolding exit_thread on_exit start_worker
  exited_itself t fresh w below = ground (arith, below)

  -- No worker of a list runs a thread, once each of them has been passed through a function after which
  -- none does.
  silent_map :
      (t u fresh : ℕ) (workers : List (Worker D))
      → t < fresh
      → has_running t workers ≡ false
      → has_running t (map (exit_thread u fresh) workers) ≡ false
  silent_map t u fresh [] below h = refl
  silent_map t u fresh (w ∷ workers) below h =
      ground (arith, h, below, exited_elsewhere t u fresh w, silent_map t u fresh workers below)

  silenced :
      (t fresh : ℕ) (workers : List (Worker D))
      → t < fresh
      → has_running t (map (exit_thread t fresh) workers) ≡ false
  silenced t fresh [] below = refl
  silenced t fresh (w ∷ workers) below =
      ground (arith, below, exited_itself t fresh w, silenced t fresh workers below)

  event-IsGone :
      (t : ℕ) (e : WorkerEvent) (pool : Pool D) → IsGone t pool → IsGone t (on_worker_event e pool)
  unfolding on_worker_event
  event-IsGone t (exits u) pool g = record {
    silent = silent_map t u pool.fresh pool.workers g.started g.silent;
    started = omega (arith, g.started);
  }
  event-IsGone t (answers u id r) pool g = g
  event-IsGone t (breaks u x) pool g = g

  pub exit-IsGone :
      (t : ℕ) (pool : Pool D) → t < pool.fresh → IsGone t (on_worker_event (exits t) pool)
  unfolding on_worker_event
  exit-IsGone t pool below = record {
    silent = silenced t pool.fresh pool.workers below;
    started = omega (arith, below);
  }

  pub run_pool-IsGone :
      (t : ℕ) (es : List WorkerEvent) (pool : Pool D) → IsGone t pool → IsGone t (run_pool es pool)
  run_pool-IsGone t [] pool g = g
  run_pool-IsGone t (e ∷ es) pool g =
      run_pool-IsGone t es (on_worker_event e pool) (event-IsGone t e pool g)

  unheard :
      (t u : ℕ) (workers : List (Worker D))
      → has_running t workers ≡ false
      → (has_running u workers && (u == t)) ≡ false
  unheard t u workers h = elim (Bool-cases (u == t)) [
    | inl y ↦ ground (arith, h, y)
    | inr n ↦ ground (arith, n)
  ]

  deaf :
      (empty : Block) (e : WorkerEvent) (pool : Pool D) (c : PoolCall)
      → IsGone c.thread pool
      → hears empty e pool c ≡ c
  unfolding hears
  deaf empty (exits u) pool c g = refl
  deaf empty (answers u id r) pool c g = rw (unheard c.thread u pool.workers g.silent) refl
  deaf empty (breaks u x) pool c g = rw (unheard c.thread u pool.workers g.silent) refl

  pub all_deaf :
      (empty : Block) (es : List WorkerEvent) (pool : Pool D) (c : PoolCall)
      → IsGone c.thread pool
      → hears_all empty es pool c ≡ c
  unfolding hears_all
  all_deaf empty [] pool c g = refl
  all_deaf empty (e ∷ es) pool c g =
      ap (hears_all empty es (on_worker_event e pool)) (deaf empty e pool c g)
      ∙ all_deaf empty es (on_worker_event e pool) c (event-IsGone c.thread e pool g)
