-- ===== src/Services/Logger.antt =====
-- internal/logger/logger.ts. Winston is outside: what it is created with, and what it is told to write.
-- The format of its lines, and its options beside the transports, are left out.
use chain_indexer_framework.Prelude.{
  String, Option, none, some, List, [], ◌∷◌, or_default, if◌then◌else◌,
}
use chain_indexer_framework.Prelude.Text.{str_eq, ◌++ˢ◌}
use chain_indexer_framework.Errors.Value.{JsValue, text, object, read}

-- The entries of `LoggerConfig` that the code reads.
pub record LoggerConfig : Type 0 where
  pub console_level : Option String
  pub sentry_dsn : Option String
  pub sentry_level : Option String
  pub datadog_api_key : Option String
  pub datadog_service_name : Option String

-- The transports, in the order of the array.
pub record Transports : Type 0 where
  pub console_level : String
  pub sentry_dsn : Option String
  pub sentry_level : String
  pub http_host : String
  pub http_path : String

-- The one logger, if it has been created, and the lines by level, newest first.
pub record LoggerState : Type 0 where
  pub logger : Option Transports
  pub lines : List (String × String)

unfoldable pub no_logger : LoggerState
no_logger = record { logger = none; lines = [] }

-- `level || standard`
abbrev level_or : Option String → (standard : String) → String
level_or none standard = standard
level_or (some level) standard = if str_eq level "" then standard else level

-- An optional value in a sum of strings.
abbrev in_text : Option String → String
in_text o = or_default o "undefined"

unfoldable pub transports_of : LoggerConfig → Transports
transports_of config = record {
  console_level = level_or config.console_level "info";
  sentry_dsn = config.sentry_dsn;
  sentry_level = level_or config.sentry_level "error";
  http_host = "http-intake.logs.datadoghq.com";
  http_path =
      "/api/v2/logs?dd-api-key="
      ++ˢ in_text config.datadog_api_key
      ++ˢ "&ddsource=nodejs&service="
      ++ˢ in_text config.datadog_service_name;
}

-- The first call creates the logger, and later ones do nothing.
abbrev create_once : Option Transports → LoggerConfig → LoggerState → LoggerState
create_once none config s = record s { logger = some (transports_of config) }
create_once (some transports) config s = s

unfoldable pub create : LoggerConfig → LoggerState → LoggerState
unfolding transports_of
create config s = create_once s.logger config s

-- `logger?.log(level, line)`
abbrev write_to : Option Transports → (level line : String) → LoggerState → LoggerState
write_to none level line s = s
write_to (some transports) level line s = record s { lines = (level, line) ∷ s.lines }

module _ (stringify : JsValue → String) where
  -- A string as it is, and an object by `JSON.stringify`.
  abbrev pub line_of : JsValue → String
  line_of (text message) = message
  line_of message = stringify message

  -- `log`, of which `info`, `debug` and `warn` are the one with their own level.
  unfoldable pub log : (level : String) → JsValue → LoggerState → LoggerState
  log level message s = write_to s.logger level (line_of message) s

  unfoldable pub info : JsValue → LoggerState → LoggerState
  unfolding log
  info message s = log "info" message s

  unfoldable pub debug : JsValue → LoggerState → LoggerState
  unfolding log
  debug message s = log "debug" message s

  unfoldable pub warn : JsValue → LoggerState → LoggerState
  unfolding log
  warn message s = log "warn" message s

  -- An object with a message that is not empty has it in front.
  abbrev prefixed : Option String → (json : String) → String
  prefixed none json = json
  prefixed (some message) json = if str_eq message "" then json else message ++ˢ " : " ++ˢ json

  abbrev pub error_line : JsValue → String
  error_line (text message) = message
  error_line (object o) = prefixed (read o.message) (stringify (object o))
  error_line error = stringify error

  unfoldable pub log_error : JsValue → LoggerState → LoggerState
  log_error error s = write_to s.logger "error" (error_line error) s
