-- ===== src/Producer/Overlap.antt =====
-- `onError` and `restartBlockProducer` of internal/block_producers/block_producer.ts when errors come
-- while a restart runs: they wait for its promise. A step ends where the code awaits.
use chain_indexer_framework.Prelude.{Bool, true, false, String, List, [], ◌∷◌, if◌then◌else◌}
use chain_indexer_framework.Errors.Value.{JsObject}
use chain_indexer_framework.Errors.Convert.{block_producer_create_unknown}
use chain_indexer_framework.Store.{Outcome, done, failed}
use chain_indexer_framework.Producer.Restart.{ends_producer, is_fatal}

-- What `restartPromise` is at: `stop`, or `start`; idle, there is none.
pub data Phase : Type 0 where
  idle stopping starting : Phase

-- A call of `onError` that waits for the promise; the second kind emits its error afterwards.
pub data Waiter : Type 0 where
  waits : Waiter
  waits_to_tell : JsObject → Waiter

pub data ErrorAction : Type 0 where
  stops starts : ErrorAction
  -- The "fatalError" events of `onError`, and of the `catch` of `restartBlockProducer`.
  tells tells_failure : JsObject → ErrorAction

pub record Restarting : Type 0 where
  pub force_stop : Bool
  pub phase : Phase
  -- Newest first.
  pub waiting : List Waiter
  pub log : List ErrorAction

unfoldable pub new_restarting : Restarting
new_restarting = record { force_stop = false; phase = idle; waiting = []; log = [] }

-- `restartBlockProducer` up to its await.
abbrev pub begin_restart : Phase → Waiter → Restarting → Restarting
begin_restart idle w r = record r { phase = stopping; waiting = w ∷ r.waiting; log = stops ∷ r.log }
begin_restart stopping w r = record r { waiting = w ∷ r.waiting }
begin_restart starting w r = record r { waiting = w ∷ r.waiting }

unfoldable pub on_overlapping_error : JsObject → Restarting → Restarting
on_overlapping_error e r =
    if ends_producer e.message
    then begin_restart r.phase (waits_to_tell e) (record r { force_stop = true })
    else (if is_fatal e.is_fatal then begin_restart r.phase waits r else r)

-- What a waiter does when the promise is resolved, and when it is rejected.
abbrev pub tell_end : Waiter → List ErrorAction → List ErrorAction
tell_end waits log = log
tell_end (waits_to_tell e) log = tells e ∷ log

-- The waiters go on in the order in which they came.
abbrev pub resolve_all : List Waiter → List ErrorAction → List ErrorAction
resolve_all [] log = log
resolve_all (w ∷ ws) log = tell_end w (resolve_all ws log)

abbrev pub reject_all : JsObject → List Waiter → List ErrorAction → List ErrorAction
reject_all x [] log = log
reject_all x (w ∷ ws) log = tell_end w (tells_failure x ∷ reject_all x ws log)

module _ (trace : String) where
  abbrev pub restart_ends : Outcome (Unit {0}) → Restarting → Restarting
  restart_ends (done _) r = record r {
    phase = idle;
    waiting = [];
    log = resolve_all r.waiting r.log;
  }
  restart_ends (failed e) r = record r {
    phase = idle;
    waiting = [];
    log = reject_all (block_producer_create_unknown trace e true) r.waiting r.log;
  }

  -- `stop` has come back: `start`, which resets `forceStop`, or the end.
  abbrev pub after_stopping : Outcome (Unit {0}) → Restarting → Restarting
  after_stopping (failed e) r = restart_ends (failed e) r
  after_stopping (done u) r =
      if r.force_stop
      then restart_ends (done u) r
      else record r { phase = starting; force_stop = false; log = starts ∷ r.log }

  abbrev pub restart_answer : Phase → Outcome (Unit {0}) → Restarting → Restarting
  restart_answer idle answer r = r
  restart_answer stopping answer r = after_stopping answer r
  restart_answer starting answer r = restart_ends answer r

  unfoldable pub on_restart_answer : Outcome (Unit {0}) → Restarting → Restarting
  on_restart_answer answer r = restart_answer r.phase answer r

  pub data ErrorEvent : Type 0 where
    errs : JsObject → ErrorEvent
    comes_back : Outcome (Unit {0}) → ErrorEvent

  abbrev pub error_event : ErrorEvent → Restarting → Restarting
  error_event (errs e) r = on_overlapping_error e r
  error_event (comes_back answer) r = on_restart_answer answer r

  abbrev pub run_errors : List ErrorEvent → Restarting → Restarting
  run_errors [] r = r
  run_errors (e ∷ es) r = run_errors es (error_event e r)
