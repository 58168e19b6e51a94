-- ===== src/Logging.antt =====
-- utils/logger.ts: what the logger prints. A line is given by its parts; the texts that the console and `JSON.stringify`
-- make of it are left aside.
pub mod Production
mod Tests
use gpg_signing_service.Common.{
  String, Bool, true, false, Option, none, some, List, [], ◌∷◌, if◌then◌else◌, truthy?, or_text,
  ◌+s◌,
}
use gpg_signing_service.Dict
use gpg_signing_service.Dict.{Dict}

pub data LogLevel : Type 0 where
  debug_level info_level warn_level error_level : LogLevel

abbrev pub level_text : LogLevel → String
level_text debug_level = "debug"
level_text info_level = "info"
level_text warn_level = "warn"
level_text error_level = "error"

-- `level.toUpperCase()`
abbrev pub level_upper : LogLevel → String
level_upper debug_level = "DEBUG"
level_upper info_level = "INFO"
level_upper warn_level = "WARN"
level_upper error_level = "ERROR"

-- What stands in a context: a text, nothing, the message, the stack and the name of an error, or anything else.
pub data Value : Type 0 where
  text : String → Value
  undefined : Value
  described : (message : String) → (stack : Option String) → (name : String) → Value
  other : String → Value

abbrev pub LogContext : Type 0
LogContext = Dict Value

-- What is passed as an error: an `Error`, or a value.
pub data Problem : Type 0 where
  error_of : (message stack name : String) → Problem
  value : Value → Problem

-- A line of the console: a label, a message and a context in development, the fields of the JSON otherwise.
pub data Line : Type 0 where
  plain : (label message : String) → LogContext → Line
  json : LogContext → Line

pub record Logger : Type 0 where
  pub is_development : Bool

-- `context || ""`, and nothing where a missing context is spread
abbrev pub given : Option LogContext → LogContext
given none = []
given (some context) = context

unfoldable pub log : Logger → (timestamp : String) → LogLevel → String → Option LogContext → Line
unfolding Dict.spread
log logger timestamp level message context =
    if logger.is_development
    then plain ("[" +s (level_upper level +s "]")) message (given context)
    else json (
        Dict.spread
          (("timestamp", text timestamp)
            ∷ ("level", text (level_text level))
            ∷ ("message", text message)
            ∷ [])
          (given context))

unfoldable pub debug :
    Logger → (timestamp : String) → (message : String) → Option LogContext → List Line
unfolding log
debug logger timestamp message context =
    if logger.is_development then log logger timestamp debug_level message context ∷ [] else []

abbrev pub info : Logger → (timestamp : String) → (message : String) → Option LogContext → List Line
info logger timestamp message context = log logger timestamp info_level message context ∷ []

abbrev pub warn : Logger → (timestamp : String) → (message : String) → Option LogContext → List Line
warn logger timestamp message context = log logger timestamp warn_level message context ∷ []

-- the field `error` of the context
abbrev pub error_value : Logger → Problem → Value
error_value logger (error_of message stack name) =
    described message (if logger.is_development then some stack else none) name
error_value logger (value v) = v

unfoldable pub error :
    Logger → (timestamp : String) → (message : String) → Problem → Option LogContext → List Line
unfolding log Dict.spread
error logger timestamp message problem context =
    log logger timestamp error_level message
      (some (Dict.spread (given context) (("error", error_value logger problem) ∷ [])))
    ∷ []

pub record LoggerWithContext : Type 0 where
  pub logger : Logger
  pub context : LogContext

abbrev request_value : Option String → Value
request_value none = undefined
request_value (some id) = text id

-- `withContext`: the request's identifier is the variable of the request, or its header.
abbrev pub with_context : Logger → (variable header : Option String) → LoggerWithContext
with_context logger variable header = record {
  logger = logger;
  context = ("requestId", request_value (if truthy? variable then variable else header)) ∷ [];
}

-- `{ ...this.context, ...additionalContext }`
abbrev pub merged : LoggerWithContext → Option LogContext → LogContext
merged l additional = Dict.spread l.context (given additional)

-- The methods of a logger with a context.
abbrev pub debug_with :
    LoggerWithContext → (timestamp : String) → (message : String) → Option LogContext → List Line
debug_with l timestamp message additional =
    debug l.logger timestamp message (some (merged l additional))

abbrev pub info_with :
    LoggerWithContext → (timestamp : String) → (message : String) → Option LogContext → List Line
info_with l timestamp message additional =
    info l.logger timestamp message (some (merged l additional))

abbrev pub warn_with :
    LoggerWithContext → (timestamp : String) → (message : String) → Option LogContext → List Line
warn_with l timestamp message additional =
    warn l.logger timestamp message (some (merged l additional))

abbrev pub error_with :
    LoggerWithContext
    → (timestamp : String) → (message : String) → Problem
    → Option LogContext
    → List Line
error_with l timestamp message problem additional =
    error l.logger timestamp message problem (some (merged l additional))
