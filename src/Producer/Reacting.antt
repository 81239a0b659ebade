-- ===== src/Producer/Reacting.antt =====
-- Errors of internal/block_producers/block_producer.ts that come while a restart runs.
use chain_indexer_framework.Prelude.{
  ◌≡◌, sym, ◌∙◌, ◌++◌, append-nil, append_assoc, ◌⊎◌, refl, ap, subst, inl, inr, Bool, true, false,
  String, List, [], ◌∷◌, if◌then◌else◌, either_way,
}
use chain_indexer_framework.Errors.Value.{JsObject}
use chain_indexer_framework.Errors.Convert.{block_producer_create_unknown}
use chain_indexer_framework.Store.{Outcome, done, failed}
use chain_indexer_framework.Producer.Restart.{ends_producer, is_fatal}
use chain_indexer_framework.Producer.Overlap.{
  Phase, idle, stopping, starting, Waiter, waits, waits_to_tell, Restarting, new_restarting,
  begin_restart, on_overlapping_error, restart_ends, after_stopping, restart_answer,
  on_restart_answer, ErrorEvent, errs, comes_back, run_errors,
}
use chain_indexer_framework.Producer.Telling.{
  stop_last, InTurn, told, to_tell, is_running, Stopped, resolve_all-OnlyTells,
  reject_all-OnlyTells,
}

-- After errors of which these end the producer, oldest first.
record Reacts (n : List JsObject) (r : Restarting) : Type 0 where
  alone : (r.waiting ≡ []) ⊎ (is_running r.phase ≡ true)
  in_turn : InTurn r.log
  stopped : Stopped r.phase r.log
  counted : told r.log ++ to_tell r.waiting ≡ n

abbrev pub ending : JsObject → List JsObject
ending e = if ends_producer e.message then e ∷ [] else []

-- The errors of a run that end the producer.
abbrev pub endings : {trace : String} → List (ErrorEvent trace) → List JsObject
endings [] = []
endings (errs e ∷ es) = ending e ++ endings es
endings (comes_back answer ∷ es) = endings es

one_more_waits : (w : Waiter) (ws : List Waiter) → to_tell (w ∷ ws) ≡ to_tell ws ++ to_tell (w ∷ [])
one_more_waits waits ws = sym (append-nil (to_tell ws))
one_more_waits (waits_to_tell e) ws = refl

waits_too :
    (w : Waiter) (n : List JsObject) (r : Restarting)
    → Reacts n r
    → told r.log ++ to_tell (w ∷ r.waiting) ≡ n ++ to_tell (w ∷ [])
waits_too w n r h =
    ap (λ l. told r.log ++ l) (one_more_waits w r.waiting)
    ∙ sym (append_assoc (told r.log) (to_tell r.waiting) (to_tell (w ∷ [])))
    ∙ ap (λ l. l ++ to_tell (w ∷ [])) h.counted

begin_restart-Reacts :
    (p : Phase) (w : Waiter) (n : List JsObject) (r : Restarting)
    → r.phase ≡ p
    → Reacts n r
    → Reacts (n ++ to_tell (w ∷ [])) (begin_restart p w r)
begin_restart-Reacts idle w n r e h = record {
  alone = inr refl;
  in_turn = h.in_turn;
  stopped = refl;
  counted = waits_too w n r h;
}
begin_restart-Reacts stopping w n r e h = record {
  alone = inr (ap is_running e);
  in_turn = h.in_turn;
  stopped = h.stopped;
  counted = waits_too w n r h;
}
begin_restart-Reacts starting w n r e h = record {
  alone = inr (ap is_running e);
  in_turn = h.in_turn;
  stopped = h.stopped;
  counted = waits_too w n r h;
}

error-Reacts :
    (e : JsObject) (n : List JsObject) (r : Restarting)
    → Reacts n r
    → Reacts (n ++ ending e) (on_overlapping_error e r)
unfolding on_overlapping_error
error-Reacts e n r h = by_kind (ends_producer e.message) (is_fatal e.is_fatal)
  where
    by_kind :
        (ends fatal : Bool)
        → Reacts (n ++ (if ends then e ∷ [] else [])) (
            if ends
            then begin_restart r.phase (waits_to_tell e) (record r { force_stop = true })
            else (if fatal then begin_restart r.phase waits r else r))
    by_kind true fatal =
        begin_restart-Reacts r.phase (waits_to_tell e) n (record r { force_stop = true }) refl
          (record {
            alone = h.alone;
            in_turn = h.in_turn;
            stopped = h.stopped;
            counted = h.counted;
          })
    by_kind false true = begin_restart-Reacts r.phase waits n r refl h
    by_kind false false = record {
      alone = h.alone;
      in_turn = h.in_turn;
      stopped = h.stopped;
      counted = h.counted ∙ sym (append-nil n);
    }

recount : {n m : List JsObject} {r : Restarting} → n ≡ m → Reacts n r → Reacts m r
recount {r = r} e h = subst (λ k. Reacts k r) e h

module _ (trace : String) where
  ends-Reacts :
      (answer : Outcome (Unit {0})) (n : List JsObject) (r : Restarting)
      → Reacts n r
      → Reacts n (restart_ends trace answer r)
  ends-Reacts (done u) n r h =
      let o = resolve_all-OnlyTells r.waiting r.log in
      record {
        alone = inl refl;
        in_turn = o.in_turn h.in_turn;
        stopped = tt;
        counted = append-nil (told (restart_ends trace (done u) r).log) ∙ o.more ∙ h.counted;
      }
  ends-Reacts (failed e) n r h =
      let o = reject_all-OnlyTells (block_producer_create_unknown trace e true) r.waiting r.log in
      record {
        alone = inl refl;
        in_turn = o.in_turn h.in_turn;
        stopped = tt;
        counted = append-nil (told (restart_ends trace (failed e) r).log) ∙ o.more ∙ h.counted;
      }

  stopping-Reacts :
      (answer : Outcome (Unit {0})) (n : List JsObject) (r : Restarting)
      → stop_last r.log ≡ true
      → Reacts n r
      → Reacts n (after_stopping trace answer r)
  stopping-Reacts (failed e) n r l h = ends-Reacts (failed e) n r h
  stopping-Reacts (done u) n r l h =
      either_way (Reacts n) r.force_stop _ _ (λ forced. ends-Reacts (done u) n r h)
        (λ free. record {
          alone = inr refl;
          in_turn = (l, h.in_turn);
          stopped = tt;
          counted = h.counted;
        })

  answer-Reacts :
      (p : Phase) (answer : Outcome (Unit {0})) (n : List JsObject) (r : Restarting)
      → r.phase ≡ p
      → Reacts n r
      → Reacts n (restart_answer trace p answer r)
  answer-Reacts idle answer n r e h = h
  answer-Reacts stopping answer n r e h =
      stopping-Reacts answer n r (subst (λ p. Stopped p r.log) e h.stopped) h
  answer-Reacts starting answer n r e h = ends-Reacts answer n r h

  run-Reacts :
      (es : List (ErrorEvent trace)) (n : List JsObject) (r : Restarting)
      → Reacts n r
      → Reacts (n ++ endings es) (run_errors trace es r)
  unfolding on_restart_answer
  run-Reacts [] n r h = recount (sym (append-nil n)) h
  run-Reacts (errs e ∷ es) n r h =
      recount (append_assoc n (ending e) (endings es))
        (run-Reacts es _ (on_overlapping_error e r) (error-Reacts e n r h))
  run-Reacts (comes_back answer ∷ es) n r h =
      run-Reacts es n _ (answer-Reacts r.phase answer n r refl h)

  -- However many errors come, while no restart runs, while `stop` runs or while `start` runs, and
  -- whatever the two answer: `start` is called only after a `stop` that no `start` has followed; the
  -- errors that end the producer are, in the order in which they came and each once, those that have been
  -- told to the application and then those that are going to be; and once the restart has ended no call
  -- waits.
  pub run_errors-InTurn :
      (es : List (ErrorEvent trace))
      → let r = run_errors trace es new_restarting in
        InTurn r.log
        × (told r.log ++ to_tell r.waiting ≡ endings es)
        × ((r.waiting ≡ []) ⊎ (is_running r.phase ≡ true))
  unfolding new_restarting
  run_errors-InTurn es =
      let first : Reacts [] new_restarting = record {
        alone = inl refl;
        in_turn = tt;
        stopped = tt;
        counted = refl;
      } in
      let h = run-Reacts es [] new_restarting first in (h.in_turn, h.counted, h.alone)
