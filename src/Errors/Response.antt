-- ===== src/Errors/Response.antt =====
-- utils/errors.ts: an answer for an error, which is logged.
use gpg_signing_service.Common.{
  String, Bool, true, false, Option, none, some, List, [], ◌∷◌, ◌++◌, if◌then◌else◌, truthy?,
}
use gpg_signing_service.Dict
use gpg_signing_service.Http.{Status, internal_server_error}
use gpg_signing_service.Errors.{ErrorCode, error_code_text}
use gpg_signing_service.Logging.{
  Value, text, undefined, other, LogContext, Problem, error_of, value, Line, Logger, error,
}

pub record ErrorOptions : Type 0 where
  pub code : ErrorCode
  pub status : Option Status
  pub request_id : Option String
  pub context : Option LogContext

pub record ErrorBody : Type 0 where
  pub error : String
  pub code : ErrorCode
  pub request_id : Option String

-- `status = HTTP.InternalServerError`
abbrev pub status_of : Option Status → Status
status_of none = internal_server_error
status_of (some status) = status

-- `...(requestId && { requestId })`
abbrev pub request_field : Option String → LogContext
request_field none = []
request_field (some id) = if truthy? (some id) then ("requestId", text id) ∷ [] else []

abbrev options_context : Option LogContext → LogContext
options_context none = []
options_context (some context) = context

-- `errorResponse`: the lines that are logged, the status and the body; `shown` writes a status.
unfoldable pub error_response :
    Logger
    → (shown : Status → String) → (timestamp : String) → (message : String) → ErrorOptions
    → List Line × (Status × ErrorBody)
unfolding error Dict.spread
error_response logger shown timestamp message options = (
  error logger timestamp message (value undefined) (
      some (
        Dict.spread
          (Dict.spread
            (("code", text (error_code_text options.code))
              ∷ ("status", other (shown (status_of options.status)))
              ∷ [])
            (request_field options.request_id))
          (options_context options.context))),
  (
    status_of options.status,
    record {
      error = message;
      code = options.code;
      request_id = if truthy? options.request_id then options.request_id else none;
    },
  ),
)

-- `error instanceof Error ? error.message : fallbackMessage`
abbrev pub message_of : Problem → (fallback : String) → String
message_of (error_of message stack name) fallback = message
message_of (value v) fallback = fallback

abbrev pub request_value : Option String → Value
request_value none = undefined
request_value (some id) = text id

-- `handleUnknownError`; the identifier is the variable of the request.
unfoldable pub handle_unknown_error :
    Logger
    → (shown : Status → String) → (timestamp : String) → (request_id : Option String) → Problem
    → (fallback : String) → ErrorCode
    → List Line × (Status × ErrorBody)
unfolding error error_response
handle_unknown_error logger shown timestamp request_id problem fallback code =
    let first = error logger timestamp "Unhandled error" problem (
      some
        (("code", text (error_code_text code)) ∷ ("requestId", request_value request_id) ∷ [])) in
    let (second, answer) =
      error_response logger shown timestamp (message_of problem fallback) (record {
        code = code;
        request_id = request_id;
        status = some internal_server_error;
        context = none;
      }) in
    (first ++ second, answer)

-- AppError, with `instanceof` as a test of the constructor.
pub data Raised : Type 0 where
  app_error :
      (message : String)
      → ErrorCode
      → (status : Option Status) → (context : Option LogContext) → Raised
  raised : Problem → Raised

abbrev pub is_app_error : Raised → Bool
is_app_error (app_error message code status context) = true
is_app_error (raised problem) = false

-- `this.status`
abbrev pub app_status : Raised → Option Status
app_status (app_error message code status context) = some (status_of status)
app_status (raised problem) = none
