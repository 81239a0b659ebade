-- ===== src/Producer/ErrorTests.antt =====
-- Errors that come while a restart of the producer runs.
use chain_indexer_framework.Prelude.{◌++◌, ◌≡◌, ◌⊎◌, refl, true, List, [], ◌∷◌}
use chain_indexer_framework.Errors.Value.{JsObject, value, new_error}
use chain_indexer_framework.Store.{done}
use chain_indexer_framework.Producer.Overlap.{
  idle, stops, starts, tells, new_restarting, on_overlapping_error, on_restart_answer, ErrorEvent,
  errs, comes_back, run_errors,
}
use chain_indexer_framework.Producer.Telling.{InTurn, told, to_tell, is_running}
use chain_indexer_framework.Producer.Reacting.{endings, run_errors-InTurn}

abbrev reorg : JsObject
reorg = record (new_error "at" "Chain reorg encountered") { is_fatal = value true }

abbrev erroneous_state : JsObject
erroneous_state = new_error "at" "Local: Erroneous state"

-- The error that ends the producer comes while `start` runs.
abbrev too_late : List (ErrorEvent "at")
too_late =
    errs reorg
    ∷ comes_back (done tt)
    ∷ errs erroneous_state
    ∷ comes_back (done tt)
    ∷ errs reorg
    ∷ comes_back (done tt)
    ∷ []

run_errors-InTurn_example :
    let r = run_errors "at" too_late new_restarting in
    InTurn r.log
    × (told r.log ++ to_tell r.waiting ≡ endings too_late)
    × ((r.waiting ≡ []) ⊎ (is_running r.phase ≡ true))
run_errors-InTurn_example = run_errors-InTurn "at" too_late

-- The producer runs on after its end was told; the next error stops it, and nothing tells of that.
never_started_again : run_errors "at" too_late new_restarting ≡ record {
  force_stop = true;
  phase = idle;
  waiting = [];
  log = stops ∷ tells erroneous_state ∷ starts ∷ stops ∷ [];
}
unfolding new_restarting on_overlapping_error on_restart_answer new_error
never_started_again = refl
