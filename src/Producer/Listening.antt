-- ===== src/Producer/Listening.antt =====
-- How many "delivered" listeners `start`, `stop` and the restarts of
-- internal/block_producers/block_producer.ts leave, and where a restart resumes.
use chain_indexer_framework.Prelude.{
  ◌+◌, ◌≤◌, ◌≡◌, ◌⊎◌, refl, inl, inr, Bool, true, false, String, none, some, List, [], ◌∷◌, arith,
  if◌then◌else◌,
}
use chain_indexer_framework.Errors.Value.{JsValue}
use chain_indexer_framework.Store.{Outcome, done, failed}
use chain_indexer_framework.KafkaProducer.Sending.{Sender, start_producer, stop_producer}
use chain_indexer_framework.Producer.StartBlock.{Start, start_at, reported, thrown}
use chain_indexer_framework.Producer.Life.{
  Life, StartAnswers, StopAnswers, subscribe_from, after_connection, after_database, start,
  after_disconnection, after_unsubscribe, stop, start_unless_forced, restart,
}

-- At most one listener, and one where the subscription runs.
pub record IsHeard (l : Life) : Type 0 where
  pub at_most_one : l.delivered_listeners ≤ 1
  pub one_subscribed : (l.subscribed ≡ none) ⊎ (l.delivered_listeners ≡ 1)

-- As a successful `stop` leaves it.
abbrev pub IsQuiet : Life → Type 0
IsQuiet l = (l.delivered_listeners ≡ 0) × (l.subscribed ≡ none)

with_one-IsHeard : (l : Life) → l.delivered_listeners ≡ 1 → IsHeard l
with_one-IsHeard l h = record { at_most_one = omega (arith, h); one_subscribed = inr h }

without-IsHeard : (l : Life) → IsQuiet l → IsHeard l
without-IsHeard l h = record { at_most_one = omega (arith, h.0); one_subscribed = inl h.1 }

subscribe_from-IsHeard :
    (start_block : Start) (subscription : Outcome (Unit {0})) (l : Life)
    → l.delivered_listeners ≡ 1
    → IsHeard (subscribe_from start_block subscription l).0
subscribe_from-IsHeard (thrown e) subscription l h = with_one-IsHeard l h
subscribe_from-IsHeard (reported e) subscription l h =
    with_one-IsHeard (record l { errors = e ∷ l.errors }) h
subscribe_from-IsHeard (start_at n) (failed e) l h = with_one-IsHeard l h
subscribe_from-IsHeard (start_at n) (done u) l h =
    with_one-IsHeard (record l { subscribed = some n }) h

after_connection-IsHeard :
    (answers : StartAnswers) (r : Sender × Outcome (Unit {0})) (l : Life)
    → IsQuiet l
    → IsHeard (after_connection answers r l).0
after_connection-IsHeard answers (sender, failed e) l h =
    without-IsHeard (record l { sender = sender }) h
after_connection-IsHeard answers (sender, done u) l h =
    subscribe_from-IsHeard answers.start_block answers.subscription
      (record l { sender = sender; delivered_listeners = l.delivered_listeners + 1 })
      (omega (arith, h.0))

after_database-IsHeard :
    (trace : String) (answers : StartAnswers) (o : Outcome (Unit {0})) (l : Life)
    → IsQuiet l
    → IsHeard (after_database trace answers o l).0
after_database-IsHeard trace answers (failed e) l h = without-IsHeard l h
after_database-IsHeard trace answers (done u) l h =
    after_connection-IsHeard answers (start_producer trace answers.connection l.sender) l h

start-IsHeard :
    (trace : String) (answers : StartAnswers) (l : Life)
    → IsQuiet l
    → IsHeard (start trace answers l).0
unfolding start
start-IsHeard trace answers l h =
    after_database-IsHeard trace answers answers.database (record l { force_stop = false }) h

-- What `stop` leaves: the listeners as they were, or none.
pub data Stopped (l : Life) : Life × Outcome (Unit {0}) → Type 0 where
  refused : (e : JsValue) → Stopped l (l, failed e)
  kept :
      (e : JsValue) (l' : Life)
      → l'.delivered_listeners ≡ l.delivered_listeners
      → l'.subscribed ≡ none
      → Stopped l (l', failed e)
  quiet :
      (l' : Life)
      → IsQuiet l'
      → l'.force_stop ≡ l.force_stop
      → l'.producing ≡ []
      → Stopped l (l', done tt)

disconnected-Stopped :
    (l : Life) (r : Sender × Outcome (Unit {0}))
    → Stopped l (after_disconnection r (record l { subscribed = none; producing = [] }))
disconnected-Stopped l (sender, failed e) = kept e _ refl refl
disconnected-Stopped l (sender, done u) = quiet _ (refl, refl) refl refl

unsubscribed-Stopped :
    (answers : StopAnswers) (o : Outcome (Unit {0})) (l : Life)
    → Stopped l (after_unsubscribe answers o l)
unsubscribed-Stopped answers (failed e) l = refused e
unsubscribed-Stopped answers (done u) l =
    disconnected-Stopped l (stop_producer answers.disconnection l.sender)

pub stop-Stopped : (answers : StopAnswers) (l : Life) → Stopped l (stop answers l)
unfolding stop
stop-Stopped answers l = unsubscribed-Stopped answers answers.subscription l

chosen-IsHeard :
    (b : Bool) (x y : Life × Outcome (Unit {0}))
    → IsHeard x.0
    → IsHeard y.0
    → IsHeard (if b then x else y).0
chosen-IsHeard true x y h g = h
chosen-IsHeard false x y h g = g

started-IsHeard :
    (trace : String) (answers : StartAnswers) (l : Life) (r : Life × Outcome (Unit {0}))
    → IsHeard l
    → Stopped l r
    → IsHeard (start_unless_forced trace answers r).0
started-IsHeard trace answers l _ h (refused e) = h
started-IsHeard trace answers l _ h (kept e l' same gone) = record {
  at_most_one = omega (arith, h.at_most_one, same);
  one_subscribed = inl gone;
}
started-IsHeard trace answers l _ h (quiet l' none_left same empty) =
    chosen-IsHeard l'.force_stop (l', done tt) (start trace answers l')
      (without-IsHeard l' none_left) (start-IsHeard trace answers l' none_left)

-- A course of restarts, with what is answered to each.
unfoldable pub restarts : (trace : String) → List (StopAnswers × StartAnswers) → Life → Life
unfolding restart
restarts trace [] l = l
restarts trace (a ∷ more) l = restarts trace more (restart trace a.0 a.1 l).0

-- Whatever is answered to any number of restarts: from a producer with at most one "delivered" listener,
-- and with one if its subscription runs, such a producer comes out.
pub restarts-IsHeard :
    (trace : String) (course : List (StopAnswers × StartAnswers)) (l : Life)
    → IsHeard l
    → IsHeard (restarts trace course l)
unfolding restarts restart
restarts-IsHeard trace [] l h = h
restarts-IsHeard trace (a ∷ more) l h =
    restarts-IsHeard trace more (restart trace a.0 a.1 l).0
      (started-IsHeard trace a.1 l (stop a.0 l) h (stop-Stopped a.0 l))
