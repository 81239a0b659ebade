-- ===== src/Producer/Life.antt =====
-- `start`, `stop`, the `next` observer and `produceBlock` of
-- internal/block_producers/block_producer.ts. What the database, the client, `getStartBlock` and the
-- subscription answer is an argument.
use chain_indexer_framework.Prelude.{
  ℕ, ◌+◌, ◌==◌, Bool, false, not, String, Option, none, some, List, [], ◌∷◌, keep_if, if◌then◌else◌,
}
use chain_indexer_framework.Prelude.Int.{ℤ}
use chain_indexer_framework.Errors.Value.{JsValue, JsObject, object}
use chain_indexer_framework.Store.{Outcome, done, failed, ProducedBlock}
use chain_indexer_framework.Subscription.State.{Block}
use chain_indexer_framework.Producer.StartBlock.{Start, start_at, reported, thrown}
use chain_indexer_framework.KafkaProducer.Sending.{Sender, start_producer, stop_producer}
use chain_indexer_framework.KafkaProducer.Asynchronous.{AsynchronousSender, produce_asynchronously}

pub record Life : Type 0 where
  pub force_stop : Bool
  pub sender : Sender
  -- How many listeners there are for "delivered".
  pub delivered_listeners : ℕ
  -- The block from which the subscription runs.
  pub subscribed : Option ℤ
  -- The calls of `produceBlock` that `producingBlockPromises` holds.
  pub producing : List ℕ
  -- The errors that `getStartBlock` has handed to `onError`, which goes on by itself, newest first.
  pub errors : List JsObject

-- What is answered to the calls of one `start`, and of one `stop`.
pub record StartAnswers : Type 0 where
  pub database : Outcome (Unit {0})
  pub connection : Option JsValue
  pub start_block : Start
  pub subscription : Outcome (Unit {0})

pub record StopAnswers : Type 0 where
  pub subscription : Outcome (Unit {0})
  pub disconnection : Option JsObject

-- `subscribe`, with the start block that is computed before it.
abbrev pub subscribe_from : Start → Outcome (Unit {0}) → Life → Life × Outcome (Unit {0})
subscribe_from (thrown e) subscription l = (l, failed e)
subscribe_from (reported e) subscription l = (record l { errors = e ∷ l.errors }, failed (object e))
subscribe_from (start_at n) (failed e) l = (l, failed e)
subscribe_from (start_at n) (done _) l = (record l { subscribed = some n }, done tt)

-- From the connected client on: the listener is added first.
abbrev pub after_connection :
    StartAnswers → Sender × Outcome (Unit {0}) → Life → Life × Outcome (Unit {0})
after_connection answers (sender, failed e) l = (record l { sender = sender }, failed e)
after_connection answers (sender, done _) l =
    subscribe_from answers.start_block answers.subscription
      (record l { sender = sender; delivered_listeners = l.delivered_listeners + 1 })

abbrev pub after_database :
    (trace : String) → StartAnswers → Outcome (Unit {0}) → Life → Life × Outcome (Unit {0})
after_database trace answers (failed e) l = (l, failed e)
after_database trace answers (done _) l =
    after_connection answers (start_producer trace answers.connection l.sender) l

unfoldable pub start : (trace : String) → StartAnswers → Life → Life × Outcome (Unit {0})
start trace answers l =
    after_database trace answers answers.database (record l { force_stop = false })

-- The client has been told to disconnect; only then the listeners are removed.
abbrev pub after_disconnection : Sender × Outcome (Unit {0}) → Life → Life × Outcome (Unit {0})
after_disconnection (sender, failed e) l = (record l { sender = sender }, failed e)
after_disconnection (sender, done _) l =
    (record l { sender = sender; delivered_listeners = 0 }, done tt)

-- `produceBlock` and `processQueue` catch their errors, so that the two awaits come back, the first one
-- with every call settled.
abbrev pub after_unsubscribe : StopAnswers → Outcome (Unit {0}) → Life → Life × Outcome (Unit {0})
after_unsubscribe answers (failed e) l = (l, failed e)
after_unsubscribe answers (done _) l =
    after_disconnection (stop_producer answers.disconnection l.sender)
      (record l { subscribed = none; producing = [] })

unfoldable pub stop : StopAnswers → Life → Life × Outcome (Unit {0})
stop answers l = after_unsubscribe answers answers.subscription l

-- The `next` observer up to its await, and after it; `call` is the promise of one call.
unfoldable pub on_next : (call : ℕ) → Life → Life
on_next call l = record l { producing = call ∷ l.producing }

unfoldable pub on_produced : (call : ℕ) → Life → Life
on_produced call l = record l { producing = keep_if (λ other. not (other == call)) l.producing }

-- The opaque that a block is produced with.
abbrev pub details_of : Block → ProducedBlock
details_of block = record { number = block.number; hash = block.hash }

abbrev pub error_of : Outcome (Unit {0}) → Option JsValue
error_of (done _) = none
error_of (failed e) = some e

-- `produceBlock`: the error, if there is one, goes to `onError`, which is not awaited.
unfoldable pub produce_block :
    (trace : String)
    → Option JsValue
    → Outcome (Unit {0})
    → Block
    → AsynchronousSender
    → AsynchronousSender × ProducedBlock × Option JsValue
unfolding produce_asynchronously
produce_block trace connection answer block s =
    let (s', o) = produce_asynchronously trace connection answer s in
    (s', details_of block, error_of o)

-- The promise that `restartBlockProducer` makes.
abbrev pub start_unless_forced :
    (trace : String) → StartAnswers → Life × Outcome (Unit {0}) → Life × Outcome (Unit {0})
start_unless_forced trace answers (l, failed e) = (l, failed e)
start_unless_forced trace answers (l, done _) =
    let started = start trace answers l in if l.force_stop then (l, done tt) else started

unfoldable pub restart :
    (trace : String) → StopAnswers → StartAnswers → Life → Life × Outcome (Unit {0})
unfolding start stop
restart trace stop_answers start_answers l =
    start_unless_forced trace start_answers (stop stop_answers l)
