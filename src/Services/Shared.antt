-- ===== src/Services/Shared.antt =====
-- The one database of internal/mongo/database.ts in the hands of several producers.
use chain_indexer_framework.Prelude.{
  ◌≡◌, refl, ap, either_way, ◌||◌, ◌==◌, String, Option, none, some, List, [], ◌∷◌, All,
}
use chain_indexer_framework.Services.Database.{
  MongooseCall, connects, disconnects, DatabaseState, no_database, kept_url, new_database,
  connect_to, connect, disconnect_from, disconnect, DatabaseEvent, constructs, wants_connection,
  wants_none, becomes, database_event, run_database,
}

-- A call that concerns the database at a url.
abbrev Concerns : String → MongooseCall → Type 0
Concerns url (connects other) = other ≡ url
Concerns url disconnects = Unit

record Keeps (url : String) (s : DatabaseState) : Type 0 where
  first : s.instance_url ≡ some url
  calls : All (Concerns url) s.log

connect_to-Keeps :
    (url : String) (o : Option String) (s : DatabaseState)
    → o ≡ some url
    → Keeps url s
    → Keeps url (connect_to o s)
connect_to-Keeps url none s e k = absurd cc
connect_to-Keeps url (some other) s e k =
    either_way (Keeps url) ((s.ready_state == 1) || (s.ready_state == 2)) _ _ (λ y. k)
      (λ n. record { first = k.first; calls = (cc, k.calls) })

disconnect_from-Keeps :
    (url : String) (o : Option String) (s : DatabaseState)
    → Keeps url s
    → Keeps url (disconnect_from o s)
disconnect_from-Keeps url none s k = k
disconnect_from-Keeps url (some other) s k =
    either_way (Keeps url) ((s.ready_state == 0) || (s.ready_state == 3)) _ _ (λ y. k)
      (λ n. record { first = k.first; calls = (tt, k.calls) })

event-Keeps :
    (url : String) (e : DatabaseEvent) (s : DatabaseState)
    → Keeps url s
    → Keeps url (database_event e s)
unfolding new_database connect disconnect
event-Keeps url (constructs other) s k = record {
  first = ap (λ o. some (kept_url o other)) k.first;
  calls = k.calls;
}
event-Keeps url wants_connection s k = connect_to-Keeps url s.instance_url s k.first k
event-Keeps url wants_none s k = disconnect_from-Keeps url s.instance_url s k
event-Keeps url (becomes n) s k = record { first = k.first; calls = k.calls }

run_database-Keeps :
    (url : String) (es : List DatabaseEvent) (s : DatabaseState)
    → Keeps url s
    → Keeps url (run_database es s)
run_database-Keeps url [] s k = k
run_database-Keeps url (e ∷ es) s k =
    run_database-Keeps url es (database_event e s) (event-Keeps url e s k)

-- Once a `Database` has been constructed, every later connection is to its url, with whatever urls other
-- instances are constructed, and however they connect and disconnect.
run_database-Concerns :
    (url : String) (es : List DatabaseEvent)
    → All (Concerns url) (run_database es (new_database url no_database)).log
unfolding new_database no_database
run_database-Concerns url es =
    (run_database-Keeps url es _ (record { first = refl; calls = tt })).calls
