-- ===== src/Services/Database.antt =====
-- internal/mongo/database.ts. Mongoose is outside: what its connection's `readyState` becomes, and
-- whether its calls fail.
use chain_indexer_framework.Prelude.{
  ℕ, Bool, true, ◌||◌, ◌==◌, String, Option, none, some, List, [], ◌∷◌, if◌then◌else◌,
}
use chain_indexer_framework.Store.{Outcome, done, failed}

-- What mongoose is told.
pub data MongooseCall : Type 0 where
  connects : (url : String) → MongooseCall
  disconnects : MongooseCall

-- The one instance, by its url, with the state of its connection and the calls, newest first.
pub record DatabaseState : Type 0 where
  pub instance_url : Option String
  pub ready_state : ℕ
  pub log : List MongooseCall

unfoldable pub no_database : DatabaseState
no_database = record { instance_url = none; ready_state = 0; log = [] }

-- `new Database(url)`: a later instance is the first one, with its url.
abbrev pub kept_url : Option String → (url : String) → String
kept_url none url = url
kept_url (some first) url = first

unfoldable pub new_database : (url : String) → DatabaseState → DatabaseState
new_database url s = record s { instance_url = some (kept_url s.instance_url url) }

-- `connect` and `disconnect` up to the await, on the instance, which a caller has.
abbrev pub connect_to : Option String → DatabaseState → DatabaseState
connect_to none s = s
connect_to (some url) s =
    if (s.ready_state == 1) || (s.ready_state == 2)
    then s
    else record s { log = connects url ∷ s.log }

unfoldable pub connect : DatabaseState → DatabaseState
connect s = connect_to s.instance_url s

abbrev pub disconnect_from : Option String → DatabaseState → DatabaseState
disconnect_from none s = s
disconnect_from (some url) s =
    if (s.ready_state == 0) || (s.ready_state == 3)
    then s
    else record s { log = disconnects ∷ s.log }

unfoldable pub disconnect : DatabaseState → DatabaseState
disconnect s = disconnect_from s.instance_url s

-- What mongoose answers to the call of either: `true`, or its error.
abbrev pub database_answer : Outcome (Unit {0}) → Outcome Bool
database_answer (done u) = done true
database_answer (failed e) = failed e

pub data DatabaseEvent : Type 0 where
  constructs : (url : String) → DatabaseEvent
  wants_connection wants_none : DatabaseEvent
  becomes : (ready_state : ℕ) → DatabaseEvent

abbrev pub database_event : DatabaseEvent → DatabaseState → DatabaseState
database_event (constructs url) s = new_database url s
database_event wants_connection s = connect s
database_event wants_none s = disconnect s
database_event (becomes ready_state) s = record s { ready_state = ready_state }

abbrev pub run_database : List DatabaseEvent → DatabaseState → DatabaseState
run_database [] s = s
run_database (e ∷ es) s = run_database es (database_event e s)
