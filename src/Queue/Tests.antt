-- ===== src/Queue/Tests.antt =====
-- Concrete runs of the queue class.
use chain_indexer_framework.Prelude.{ℕ, ◌≡◌, refl, List, [], ◌∷◌, some, none}
use chain_indexer_framework.Queue.{new_queue, enqueue, shift, shift_by_n}
use chain_indexer_framework.Queue.Refines.{
  Call, enqueues, shifts, shifts_by, Holds, run_queue, run_list, run-refines_list,
}

abbrev calls : List (Call ℕ)
calls = enqueues 7 ∷ enqueues 8 ∷ enqueues 9 ∷ enqueues 5 ∷ shifts_by 0 ∷ shifts_by 2 ∷ shifts ∷ []

results : (run_queue calls new_queue).0 ≡ none ∷ none ∷ none ∷ none ∷ none ∷ some 8 ∷ some 9 ∷ []
unfolding new_queue enqueue shift shift_by_n
results = refl

run-refines_list_example :
    ((run_queue calls new_queue).0 ≡ (run_list calls []).0)
    × Holds (run_queue calls new_queue).1 (run_list calls []).1
run-refines_list_example = run-refines_list calls
