-- ===== src/KafkaProducer/Confirmed.antt =====
-- When the promise of `produceEvent` in internal/kafka/producer/synchronous_producer.ts resolves.
use chain_indexer_framework.Prelude.{
  ℕ, ◌≡◌, refl, sym, ap, subst, ◌∙◌, inl, inr, Bool, true, ◌&&◌, String, Option, none, some, List,
  [], ◌∷◌, arith, Bool-cases,
}
use chain_indexer_framework.Prelude.Text.{str_eq_iff}
use chain_indexer_framework.Errors.Value.{JsObject, JsValue, object}
use chain_indexer_framework.Store.{Outcome, done, failed}
use chain_indexer_framework.KafkaProducer.Delivery.{
  Report, Delivery, produce_event, settle_first, timed_out, on_timer, is_own, is_topic, on_report,
  on_sent,
}

pub data Event : Type 0 where
  reports : Option JsObject → Report → Event
  rings : (message : String) → Event
  sends : Outcome (Unit {0}) → Event

abbrev pub on_event : Event → Delivery → Delivery
on_event (reports e report) d = on_report e report d
on_event (rings message) d = on_timer message d
on_event (sends o) d = on_sent o d

abbrev pub run : List Event → Delivery → Delivery
run [] d = d
run (e ∷ es) d = run es (on_event e d)

-- A promise that has resolved did so with the report of its own message, of the given topic.
abbrev pub IsOwn : (topic : Option String) → ℕ → Option (Outcome Report) → Type 0
IsOwn topic identifier none = Unit
IsOwn topic identifier (some (failed e)) = Unit
IsOwn topic identifier (some (done report)) =
    (report.opaque ≡ some identifier) × (topic ≡ some report.topic)

settle_first-IsOwn :
    (topic : Option String) (identifier : ℕ) (before : Option (Outcome Report)) (o : Outcome Report)
    → IsOwn topic identifier before
    → IsOwn topic identifier (some o)
    → IsOwn topic identifier (settle_first before o)
settle_first-IsOwn topic identifier none o h g = g
settle_first-IsOwn topic identifier (some before) o h g = h

own_opaque : (o : Option ℕ) (i : ℕ) → is_own o i ≡ true → o ≡ some i
own_opaque none i h = ground (arith, h)
own_opaque (some o) i h = ap some (ground (arith, h))

own_topic : (t : String) (topic : Option String) → is_topic t topic ≡ true → topic ≡ some t
own_topic t none h = ground (arith, h)
own_topic t (some topic) h = ap some (sym ((str_eq_iff t topic).0 h))

both : (a b c : Bool) → (a && (b && c)) ≡ true → (b ≡ true) × (c ≡ true)
both a b c h = (ground (arith, h), ground (arith, h))

-- The call keeps its topic and its object.
pub record Confirms (topic : Option String) (identifier : ℕ) (d : Delivery) : Type 0 where
  pub same_topic : d.topic ≡ topic
  pub same_identifier : d.identifier ≡ identifier
  pub own : IsOwn topic identifier d.settled

module _ (topic : Option String) (identifier : ℕ) where
  on_report-Confirms :
      (e : Option JsObject) (report : Report) (d : Delivery)
      → Confirms topic identifier d
      → Confirms topic identifier (on_report e report d)
  unfolding on_report
  on_report-Confirms (some e) report d h = elim (Bool-cases d.listens) [
    | inl on ↦ rw on (record {
      same_topic = h.same_topic;
      same_identifier = h.same_identifier;
      own = settle_first-IsOwn topic identifier d.settled _ h.own tt;
    })
    | inr off ↦
        rw off
          (record { same_topic = h.same_topic; same_identifier = h.same_identifier; own = h.own })
  ]
  on_report-Confirms none report d h =
      elim (Bool-cases
        (d.listens && (is_own report.opaque d.identifier && is_topic report.topic d.topic))) [
          | inl on ↦
              let (o, t) = both d.listens _ _ on in
              rw on (record {
                same_topic = h.same_topic;
                same_identifier = h.same_identifier;
                own = settle_first-IsOwn topic identifier d.settled (done report) h.own (
                  own_opaque report.opaque d.identifier o ∙ ap some h.same_identifier,
                  sym h.same_topic ∙ own_topic report.topic d.topic t,
                );
              })
          | inr off ↦ rw off (record {
            same_topic = h.same_topic;
            same_identifier = h.same_identifier;
            own = h.own;
          })
        ]

  on_timer-Confirms :
      (message : String) (d : Delivery)
      → Confirms topic identifier d
      → Confirms topic identifier (on_timer message d)
  unfolding on_timer
  on_timer-Confirms message d h = elim (Bool-cases d.timer_runs) [
    | inl on ↦ rw on (record {
      same_topic = h.same_topic;
      same_identifier = h.same_identifier;
      own = settle_first-IsOwn topic identifier d.settled _ h.own tt;
    })
    | inr off ↦
        rw off
          (record { same_topic = h.same_topic; same_identifier = h.same_identifier; own = h.own })
  ]

  on_event-Confirms :
      (e : Event) (d : Delivery)
      → Confirms topic identifier d
      → Confirms topic identifier (on_event e d)
  unfolding on_sent
  on_event-Confirms (reports e report) d h = on_report-Confirms e report d h
  on_event-Confirms (rings message) d h = on_timer-Confirms message d h
  on_event-Confirms (sends (done u)) d h = h
  on_event-Confirms (sends (failed e)) d h = record {
    same_topic = h.same_topic;
    same_identifier = h.same_identifier;
    own = h.own;
  }

  run-Confirms :
      (es : List Event) (d : Delivery)
      → Confirms topic identifier d
      → Confirms topic identifier (run es d)
  run-Confirms [] d h = h
  run-Confirms (e ∷ es) d h = run-Confirms es (on_event e d) (on_event-Confirms e d h)

  -- Whatever reports, of this message or of others, timers and answers of the client come, and in
  -- whatever order: if the promise of `produceEvent` has resolved, it was with a report that carries the
  -- object of this call and names the topic that the call was given. A call without a topic, which is
  -- allowed and produces to the default one, therefore never resolves.
  pub produce_event-Confirms :
      (es : List Event) → Confirms topic identifier (run es (produce_event topic identifier))
  unfolding produce_event
  produce_event-Confirms es =
      run-Confirms es (produce_event topic identifier)
        (record { same_topic = refl; same_identifier = refl; own = tt })

abbrev pub run_reports : List (Option JsObject × Report) → Delivery → Delivery
run_reports [] d = d
run_reports ((e, report) ∷ rs) d = run_reports rs (on_report e report d)

-- The call after a failed send: its listener is gone, its timer runs.
abbrev pub deaf : (topic : Option String) (identifier : ℕ) → JsValue → Delivery
deaf topic identifier e = on_sent (failed e) (produce_event topic identifier)

stays_deaf :
    (topic : Option String) (identifier : ℕ) (e : JsValue) (rs : List (Option JsObject × Report))
    → run_reports rs (deaf topic identifier e) ≡ deaf topic identifier e
unfolding on_report on_sent produce_event
stays_deaf topic identifier e [] = refl
stays_deaf topic identifier e ((some x, report) ∷ rs) = stays_deaf topic identifier e rs
stays_deaf topic identifier e ((none, report) ∷ rs) = stays_deaf topic identifier e rs

-- If `sendToInternalProducer` fails, its error is lost: the promise of `produceEvent` stays pending
-- whatever reports come, until the timer rejects it as timed out, which is not fatal.
pub send_failure_masked :
    (topic : Option String) (identifier : ℕ) (e : JsValue) (message : String)
    (rs : List (Option JsObject × Report))
    → let d = run_reports rs (on_sent (failed e) (produce_event topic identifier)) in
      (d.settled ≡ none)
      × ((on_timer message d).settled ≡ some (failed (object (timed_out message))))
unfolding on_sent on_timer produce_event
send_failure_masked topic identifier e message rs =
    subst
      (λ d.
        (d.settled ≡ none)
        × ((on_timer message d).settled ≡ some (failed (object (timed_out message)))))
      (sym (stays_deaf topic identifier e rs)) (refl, refl)
