-- ===== src/Services/Tests.antt =====
-- The services at concrete values.
use chain_indexer_framework.Prelude.{◌≡◌, refl, String, none, some, List, [], ◌∷◌, length, true, ℕ}
use chain_indexer_framework.Errors.Value.{text, object, new_error, js_string}
use chain_indexer_framework.Store.{done}
use chain_indexer_framework.Services.Database.{
  connects, disconnects, new_database, no_database, constructs, wants_connection, wants_none,
  becomes, run_database, connect, disconnect, DatabaseEvent, database_answer,
}
use chain_indexer_framework.Services.Logger.{
  LoggerConfig, no_logger, create, info, debug, warn, log, log_error, transports_of,
}
use chain_indexer_framework.Services.Calls.{call, request_of}

-- A second producer with a url of its own, and one connection lost in between.
abbrev two_producers : List DatabaseEvent
two_producers =
    wants_connection
    ∷ becomes 2
    ∷ constructs "mongodb://b"
    ∷ wants_connection
    ∷ becomes 1
    ∷ wants_none
    ∷ becomes 0
    ∷ wants_connection
    ∷ []

one_url :
    (run_database two_producers (new_database "mongodb://a" no_database)).log
    ≡ connects "mongodb://a" ∷ disconnects ∷ connects "mongodb://a" ∷ []
unfolding new_database no_database connect disconnect
one_url = refl

answers_true : database_answer (done tt) ≡ done true
answers_true = refl

abbrev quiet : LoggerConfig
quiet = record {
  console_level = some "warn";
  sentry_dsn = none;
  sentry_level = some "";
  datadog_api_key = none;
  datadog_service_name = some "indexer";
}

-- Nothing is written before `create`, and a second `create` changes nothing.
first_create_counts :
    let s = warn js_string (text "early") no_logger in
    let t = create (record quiet { console_level = none }) (create quiet s) in
    let u = debug js_string (text "later") (info js_string (text "now") t) in
    (u.lines ≡ ("debug", "later") ∷ ("info", "now") ∷ []) × (u.logger ≡ some (transports_of quiet))
unfolding no_logger create info debug warn log
first_create_counts = (refl, refl)

undefined_key :
    (transports_of quiet).http_path
    ≡ "/api/v2/logs?dd-api-key=undefined&ddsource=nodejs&service=indexer"
unfolding transports_of
undefined_key = refl

error_has_message :
    (log_error (λ _. "{}") (object (new_error "at" "lost")) (create quiet no_logger)).lines
    ≡ ("error", "lost : {}") ∷ []
unfolding log_error create no_logger new_error
error_has_message = refl

posts_no_params :
    call {A = String × ℕ}
      (λ r. done (r.method, length r.params))
      "http://a"
      5
      (record { method = "eth_blockNumber"; params = none })
    ≡ done ("eth_blockNumber", 0)
unfolding call request_of
posts_no_params = refl
