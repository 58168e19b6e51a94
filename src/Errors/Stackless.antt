-- ===== src/Errors/Stackless.antt =====
-- The stack of an error is not logged in production.
use gpg_signing_service.Common.{
  String, ◌≡◌, refl, ◌∙◌, ap, Bool, true, false, Option, none, some, List, [], ◌∷◌, ◌++◌,
  if◌then◌else◌, truthy?, any, length, arith, Bool-cases, inl, inr,
}
use gpg_signing_service.Dict
use gpg_signing_service.Http.{Status, internal_server_error}
use gpg_signing_service.Errors.{ErrorCode, error_code_text}
use gpg_signing_service.Logging.{
  Value, text, undefined, other, described, LogContext, Problem, value, Line, json, plain, Logger,
  error_level, error, error_value, log, given,
}
use gpg_signing_service.Logging.Production.{fixed, without_stack, production_value}
use gpg_signing_service.Errors.Response.{
  error_response, handle_unknown_error, message_of, request_field, request_value,
}

abbrev pub has_stack : Value → Bool
has_stack (described message (some stack) name) = true
has_stack _ = false

abbrev pub shows_stack : Line → Bool
shows_stack (plain label message context) = Dict.any_value has_stack context
shows_stack (json entry) = Dict.any_value has_stack entry

any_value-set :
    (k : String) (v : Value) (m : LogContext)
    → has_stack v ≡ false
    → Dict.any_value has_stack m ≡ false
    → Dict.any_value has_stack (Dict.set k v m) ≡ false
unfolding Dict.set
any_value-set k v [] hv hm = rw hv refl
any_value-set k v ((j, w) ∷ m) hv hm = ground (arith, any_value-set k v m)

any_value-spread :
    (m extra : LogContext)
    → Dict.any_value has_stack m ≡ false
    → Dict.any_value has_stack extra ≡ false
    → Dict.any_value has_stack (Dict.spread m extra) ≡ false
unfolding Dict.spread
any_value-spread m [] hm he = hm
any_value-spread m ((k, v) ∷ extra) hm he =
    let hv : has_stack v ≡ false = ground arith in
    let rest : Dict.any_value has_stack extra ≡ false = ground arith in
    any_value-spread (Dict.set k v m) extra (any_value-set k v m hv hm) rest

-- The contexts of the two lines that `handleUnknownError` logs.
abbrev unhandled_context : ErrorCode → Option String → LogContext
unhandled_context code request_id =
    ("code", text (error_code_text code)) ∷ ("requestId", request_value request_id) ∷ []

abbrev answered_context : (shown : Status → String) → ErrorCode → Option String → LogContext
answered_context shown code request_id =
    Dict.spread
      (("code", text (error_code_text code)) ∷ ("status", other (shown internal_server_error)) ∷ [])
      (request_field request_id)

module _ (logger : Logger) (production : logger.is_development ≡ false) where
  log-stackless :
      (timestamp message : String) (context : LogContext)
      → Dict.any_value has_stack context ≡ false
      → shows_stack (log logger timestamp error_level message (some context)) ≡ false
  unfolding log
  log-stackless timestamp message context h =
      rw (production, log) (any_value-spread (fixed timestamp error_level message) context refl h)

  error-stackless :
      (timestamp message : String) (problem : Problem) (context : LogContext)
      → has_stack (without_stack problem) ≡ false
      → Dict.any_value has_stack context ≡ false
      → any shows_stack (error logger timestamp message problem (some context)) ≡ false
  unfolding error log
  error-stackless timestamp message problem context hp hc =
      let shown = error_value logger problem in
      let plain_value : has_stack shown ≡ false =
        ap has_stack (production_value logger problem production) ∙ hp in
      let logged =
        log-stackless timestamp message (Dict.set "error" shown context)
          (any_value-set "error" shown context plain_value hc) in
      rw logged refl

  any-append :
      (xs ys : List Line)
      → any shows_stack xs ≡ false
      → any shows_stack ys ≡ false
      → any shows_stack (xs ++ ys) ≡ false
  any-append [] ys hx hy = hy
  any-append (x ∷ xs) ys hx hy = ground (arith, any-append xs ys)

  request_field-stackless :
      (request_id : Option String) → Dict.any_value has_stack (request_field request_id) ≡ false
  request_field-stackless none = refl
  request_field-stackless (some id) = elim (Bool-cases (truthy? (some id))) [
    | inl given ↦ rw given refl
    | inr empty ↦ rw empty refl
  ]

  request_value-stackless :
      (request_id : Option String) → has_stack (request_value request_id) ≡ false
  request_value-stackless none = refl
  request_value-stackless (some id) = refl

  -- In production, what `handleUnknownError` is given as an error leads to an answer 500 with the message of the error, or
  -- the fallback if it is no `Error`, with the code, and with the identifier of the request if that is set and not empty;
  -- two lines are logged, and if the error is an `Error`, or a value without a stack, no line shows a stack.
  pub handle_unknown_error-stackless :
      (shown : Status → String) (timestamp : String) (request_id : Option String)
      (problem : Problem) (fallback : String) (code : ErrorCode)
      → has_stack (without_stack problem) ≡ false
      → ((handle_unknown_error logger shown timestamp request_id problem fallback code).1 ≡ (
        internal_server_error,
        record {
          error = message_of problem fallback;
          code = code;
          request_id = if truthy? request_id then request_id else none;
        },
      ))
        × ((length (handle_unknown_error logger shown timestamp request_id problem fallback code).0
              ≡ 2)
            × (any shows_stack
                  (handle_unknown_error logger shown timestamp request_id problem fallback code).0
                ≡ false))
  unfolding handle_unknown_error error_response error
  handle_unknown_error-stackless shown timestamp request_id problem fallback code hp = (
    refl,
    (
      refl,
      any-append
          (error logger timestamp "Unhandled error" problem
            (some (unhandled_context code request_id)))
          (error logger timestamp (message_of problem fallback) (value undefined)
            (some (answered_context shown code request_id)))
          (error-stackless timestamp "Unhandled error" problem (unhandled_context code request_id)
            hp (rw (request_value-stackless request_id) refl))
          (error-stackless timestamp (message_of problem fallback) (value undefined)
            (answered_context shown code request_id) refl
            (any_value-spread
              (("code", text (error_code_text code))
                ∷ ("status", other (shown internal_server_error))
                ∷ [])
              (request_field request_id) refl (request_field-stackless request_id))),
    ),
  )
