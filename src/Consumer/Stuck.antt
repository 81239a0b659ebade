-- ===== src/Consumer/Stuck.antt =====
-- What is left of a consumer that has given up on a message, in
-- internal/kafka/consumer/abstract_consumer.ts.
use chain_indexer_framework.Prelude.{
  ℕ, ◌≡◌, sym, ap, subst, ◌∙◌, Bool, true, false, String, List, [], ◌∷◌, Option, none, some, ◌+◌,
}
use chain_indexer_framework.Errors.Value.{JsObject, JsValue}
use chain_indexer_framework.Errors.Convert.{kafka_create_unknown, convert_lib_error}
use chain_indexer_framework.Store.{Outcome, failed}
use chain_indexer_framework.Consumer.State.{Message, Element, Consumer}
use chain_indexer_framework.Consumer.Steps.{
  on_error, on_disconnect, stop, fail_element, gives_up, on_settled, settle,
}
use chain_indexer_framework.Consumer.Receiving.{on_data}
use chain_indexer_framework.Consumer.Connection.{start}
use chain_indexer_framework.Consumer.Frame.{committed, Frame, Frame-refl, Frame-trans}
use chain_indexer_framework.Consumer.Kept.{
  on_error-Frame, on_disconnect-Frame, stop-Frame, start-Frame, on_data-Frame,
}

-- What may happen to a consumer, with the answers from outside.
pub data Event : Type 0 where
  receives : (seek : Outcome (Unit {0})) → Message → Event
  settles : Outcome (Unit {0}) → Event
  starts : (has_listeners : Bool) → Option JsObject → Event
  stops : Option JsValue → Event
  disconnected : Event
  client_error : JsObject → Event

module _ (trace : String) (asynchronous : Bool) (decode : String → String → Outcome String)
    (commit : ℕ → Outcome (Unit {0})) where
  abbrev pub on_event : Event → Consumer → Consumer
  on_event (receives seek message) c = on_data trace asynchronous decode seek message c
  on_event (settles o) c = on_settled trace commit o c
  on_event (starts b o) c = (start trace b o c).0
  on_event (stops o) c = stop trace o c
  on_event disconnected c = on_disconnect c
  on_event (client_error e) c = on_error (convert_lib_error e false) c

  abbrev pub run : List Event → Consumer → Consumer
  run [] c = c
  run (e ∷ es) c = run es (on_event e c)

  on_settled_idle :
      (o : Outcome (Unit {0})) (c : Consumer) → c.awaited ≡ none → on_settled trace commit o c ≡ c
  unfolding on_settled
  on_settled_idle o c e = ap (λ a. settle trace commit a o c) e

  on_event-Frame :
      (e : Event) (c : Consumer)
      → c.queue_is_processing ≡ true
      → c.awaited ≡ none
      → Frame c (on_event e c)
  on_event-Frame (receives seek message) c on idle =
      on_data-Frame trace asynchronous decode seek message c on
  on_event-Frame (settles o) c on idle =
      subst (Frame c) (sym (on_settled_idle o c idle)) (Frame-refl c)
  on_event-Frame (starts b o) c on idle = start-Frame trace b o c
  on_event-Frame (stops o) c on idle = stop-Frame trace o c
  on_event-Frame disconnected c on idle = on_disconnect-Frame c
  on_event-Frame (client_error e) c on idle = on_error-Frame _ c

  run-Frame :
      (es : List Event) (c : Consumer)
      → c.queue_is_processing ≡ true
      → c.awaited ≡ none
      → Frame c (run es c)
  run-Frame [] c on idle = Frame-refl c
  run-Frame (e ∷ es) c on idle =
      let f = on_event-Frame e c on idle in
      Frame-trans f (run-Frame es (on_event e c) (f.processing ∙ on) (f.awaited ∙ idle))

  fail_element-Frame :
      (e : JsValue) (c : Consumer)
      → gives_up c e ≡ true
      → ((fail_element trace e c).queue_is_processing ≡ c.queue_is_processing)
        × ((fail_element trace e c).awaited ≡ none)
        × (committed (fail_element trace e c).log ≡ committed c.log)
  unfolding fail_element
  fail_element-Frame e c h =
      let f =
        on_error-Frame (kafka_create_unknown trace e false)
          (record c { error_count = c.error_count + 1; awaited = none }) in
      rw h (f.processing, f.awaited, f.commits_kept)

  settled_failing :
      (e : JsValue) (c : Consumer) (element : Element)
      → c.awaited ≡ some element
      → on_settled trace commit (failed e) c ≡ fail_element trace e c
  unfolding on_settled
  settled_failing e c element waits = ap (λ a. settle trace commit a (failed e) c) waits

  -- Once `processQueue` has given up on a message, `queueIsProcessing` stays set: whatever messages
  -- arrive afterwards, also after the consumer has been stopped and started again, it never waits for
  -- a message any more and commits none.
  pub run-stuck :
      (es : List Event) (e : JsValue) (c : Consumer) (element : Element)
      → c.queue_is_processing ≡ true
      → c.awaited ≡ some element
      → gives_up c e ≡ true
      → let last = run es (on_settled trace commit (failed e) c) in
        (last.queue_is_processing ≡ true)
        × (last.awaited ≡ none)
        × (committed last.log ≡ committed c.log)
  run-stuck es e c element on waits up =
      let (p, a, k) = fail_element-Frame e c up in
      let f = run-Frame es (fail_element trace e c) (p ∙ on) a in
      subst
        (λ next.
          let last = run es next in
          (last.queue_is_processing ≡ true)
          × (last.awaited ≡ none)
          × (committed last.log ≡ committed c.log))
        (sym (settled_failing e c element waits))
        (f.processing ∙ p ∙ on, f.awaited ∙ a, f.commits_kept ∙ k)
