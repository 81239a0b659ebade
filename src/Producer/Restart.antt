-- ===== src/Producer/Restart.antt =====
-- `onError`, `restartBlockProducer` and the order of a restart in
-- internal/block_producers/block_producer.ts. What `stop` and `start` answer is an argument. A restart
-- that another error has begun is the subject of Overlap: here an error comes when none runs.
use chain_indexer_framework.Prelude.{
  ◌≡◌, refl, inl, inr, Bool, true, false, ◌||◌, String, List, ◌∷◌, arith, if◌then◌else◌, Bool-cases,
}
use chain_indexer_framework.Prelude.Text.{str_eq}
use chain_indexer_framework.Errors.Value.{JsObject, JsValue, Property, value}
use chain_indexer_framework.Errors.Convert.{block_producer_create_unknown}
use chain_indexer_framework.Store.{Outcome, done, failed}

pub data Action : Type 0 where
  stops starts : Action
  emits_fatal : JsObject → Action

pub record Restarts : Type 0 where
  pub force_stop : Bool
  pub log : List Action

abbrev pub logged : Action → Restarts → Restarts
logged a r = record r { log = a ∷ r.log }

-- The `catch` of `restartBlockProducer`.
abbrev pub report_failure : (trace : String) → JsValue → Restarts → Restarts
report_failure trace e r = logged (emits_fatal (block_producer_create_unknown trace e true)) r

abbrev pub after_start : (trace : String) → Outcome (Unit {0}) → Restarts → Restarts
after_start trace (done _) r = r
after_start trace (failed e) r = report_failure trace e r

abbrev pub after_stop :
    (trace : String) → Outcome (Unit {0}) → Outcome (Unit {0}) → Restarts → Restarts
after_stop trace (failed e) start_answer r = report_failure trace e r
after_stop trace (done _) start_answer r =
    if r.force_stop then r else after_start trace start_answer (logged starts r)

unfoldable pub restart_block_producer :
    (trace : String) → (stop_answer start_answer : Outcome (Unit {0})) → Restarts → Restarts
restart_block_producer trace stop_answer start_answer r =
    after_stop trace stop_answer start_answer (logged stops r)

-- The three messages after which the producer is not started again.
abbrev pub ends_producer : Property String → Bool
ends_producer (value m) =
    str_eq m "Local: Erroneous state"
    || (str_eq m "Erroneous state" || str_eq m "timeout while fetching block")
ends_producer other = false

abbrev pub is_fatal : Property Bool → Bool
is_fatal (value b) = b
is_fatal other = false

unfoldable pub on_error :
    (trace : String)
    → JsObject
    → (stop_answer start_answer : Outcome (Unit {0})) → Restarts
    → Restarts
unfolding restart_block_producer
on_error trace e stop_answer start_answer r =
    if ends_producer e.message
    then logged (emits_fatal e)
        (restart_block_producer trace stop_answer start_answer (record r { force_stop = true }))
    else (if is_fatal e.is_fatal
        then restart_block_producer trace stop_answer start_answer r
        else r)

-- What the actions of an error come to, newest first: nothing, for an error that is not fatal; a stop and
-- a start that succeeded; or a `fatalError` event as the last action.
data Handled (e : JsObject) (start_answer : Outcome (Unit {0})) (r r' : Restarts) : Type 0 where
  left_alone : is_fatal e.is_fatal ≡ false → r' ≡ r → Handled e start_answer r r'
  restarted :
      start_answer ≡ done tt
      → r'.log ≡ starts ∷ stops ∷ r.log
      → r'.force_stop ≡ false
      → Handled e start_answer r r'
  told :
      (x : JsObject) (before : List Action)
      → r'.log ≡ emits_fatal x ∷ before
      → Handled e start_answer r r'

module _ (trace : String) (e : JsObject) where
  restart-Handled :
      (stop_answer start_answer : Outcome (Unit {0})) (r : Restarts)
      → r.force_stop ≡ false
      → Handled e start_answer r (restart_block_producer trace stop_answer start_answer r)
  unfolding restart_block_producer
  restart-Handled (failed x) start_answer r off = told _ _ refl
  restart-Handled (done u) (done tt) r off =
      restarted refl (ground (arith, off)) (ground (arith, off))
  restart-Handled (done u) (failed x) r off =
      told (block_producer_create_unknown trace x true) (starts ∷ stops ∷ r.log)
        (ground (arith, off))

  -- Unless an earlier error has ended the producer, each error is dealt with: one that is not fatal
  -- changes nothing; otherwise the producer is stopped and, after that, started with success, or the last
  -- thing that happens is a `fatalError` event, which tells the application.
  on_error-Handled :
      (stop_answer start_answer : Outcome (Unit {0})) (r : Restarts)
      → r.force_stop ≡ false
      → Handled e start_answer r (on_error trace e stop_answer start_answer r)
  unfolding on_error
  on_error-Handled stop_answer start_answer r off = elim (Bool-cases (ends_producer e.message)) [
    | inl ends ↦ rw ends (told e _ refl)
    | inr goes_on ↦ elim (Bool-cases (is_fatal e.is_fatal)) [
      | inl fatal ↦ rw (goes_on, fatal) (restart-Handled stop_answer start_answer r off)
      | inr mild ↦ rw (goes_on, mild) (left_alone mild refl)
    ]
  ]
