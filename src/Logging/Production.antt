-- ===== src/Logging/Production.antt =====
-- What a logger prints in production.
use gpg_signing_service.Common.{String, ◌≡◌, refl, ◌∙◌, ap, false, Option, none, some, [], ◌∷◌}
use gpg_signing_service.Dict
use gpg_signing_service.Dict.{Dict}
use gpg_signing_service.Logging.{
  LogLevel, Value, text, described, LogContext, Problem, error_of, json, Logger, log, debug, error,
  error_value, value, error_with, LoggerWithContext, debug_with, level_text, error_level,
}

-- The fields that every entry starts with.
abbrev pub fixed : String → LogLevel → String → LogContext
fixed timestamp level message =
    ("timestamp", text timestamp)
    ∷ ("level", text (level_text level))
    ∷ ("message", text message)
    ∷ []

-- What a method with a context and an error prints as JSON.
abbrev pub entry_of : LoggerWithContext → String → String → Problem → LogContext → LogContext
entry_of l timestamp message problem additional =
    Dict.spread (fixed timestamp error_level message) (
      Dict.spread (Dict.spread l.context additional) (("error", error_value l.logger problem) ∷ []))

-- Objects have every key once.
spread-Distinct : (m extra : LogContext) → Dict.Distinct m → Dict.Distinct (Dict.spread m extra)
unfolding Dict.spread
spread-Distinct m [] d = d
spread-Distinct m ((k, v) ∷ extra) d =
    spread-Distinct (Dict.set k v m) extra (Dict.set-Distinct k v m d)

-- An error without its stack.
abbrev pub without_stack : Problem → Value
without_stack (error_of message stack name) = described message none name
without_stack (value v) = v

pub production_value :
    (logger : Logger) (problem : Problem)
    → logger.is_development ≡ false
    → error_value logger problem ≡ without_stack problem
production_value logger (error_of message stack name) p = rw p refl
production_value logger (value v) p = refl

first_some-none : (x : Option Value) → Dict.first_some x none ≡ x
first_some-none none = refl
first_some-none (some v) = refl

module _ (l : LoggerWithContext) (timestamp message : String) (problem : Problem)
    (additional : LogContext) (d : Dict.Distinct l.context) (d' : Dict.Distinct additional) where
  abbrev merge : LogContext
  merge = Dict.spread l.context additional

  abbrev single : LogContext
  single = ("error", error_value l.logger problem) ∷ []

  merged_once : Dict.Distinct (Dict.spread merge single)
  merged_once = spread-Distinct merge single (spread-Distinct l.context additional d)

  entry-error :
      Dict.get "error" (entry_of l timestamp message problem additional)
      ≡ some (error_value l.logger problem)
  unfolding Dict.get
  entry-error =
      Dict.get-spread "error" (fixed timestamp error_level message) (Dict.spread merge single)
        merged_once
      ∙ rw (Dict.get-spread "error" merge single (refl, tt)) refl

  entry-request :
      Dict.get "requestId" (entry_of l timestamp message problem additional)
      ≡ Dict.first_some (Dict.get "requestId" additional) (Dict.get "requestId" l.context)
  unfolding Dict.get
  entry-request =
      Dict.get-spread "requestId" (fixed timestamp error_level message) (Dict.spread merge single)
        merged_once
      ∙ rw
          (
            Dict.get-spread "requestId" merge single (refl, tt),
            Dict.get-spread "requestId" l.context additional d',
          )
          (first_some-none
            (Dict.first_some (Dict.get "requestId" additional) (Dict.get "requestId" l.context)))

  -- In production a logger with a context prints nothing for `debug`, and for `error` one JSON entry. Its field `error` is
  -- an `Error` without its stack, and any other value as it is, with the stack if it has one, whatever the contexts hold;
  -- its field `requestId` is the one of the additional context, and otherwise the one of the logger. The contexts are
  -- objects, which have every key once.
  pub error_with-production :
      l.logger.is_development ≡ false
      → (debug_with l timestamp message (some additional) ≡ [])
        × ((error_with l timestamp message problem (some additional)
              ≡ json (entry_of l timestamp message problem additional) ∷ [])
            × ((Dict.get "error" (entry_of l timestamp message problem additional)
                  ≡ some (without_stack problem))
                × (Dict.get "requestId" (entry_of l timestamp message problem additional)
                    ≡ Dict.first_some
                        (Dict.get "requestId" additional)
                        (Dict.get "requestId" l.context))))
  unfolding debug error log
  error_with-production p = (
    rw (p, debug) refl,
    (
      rw (p, error, log) refl,
      (entry-error ∙ ap (λ v. some v) (production_value l.logger problem p), entry-request),
    ),
  )
