-- ===== src/Logging/Tests.antt =====
-- A logger in production.
use gpg_signing_service.Common.{◌≡◌, refl, false, none, some, [], ◌∷◌}
use gpg_signing_service.Dict
use gpg_signing_service.Logging.{
  text, LogContext, error_of, json, LoggerWithContext, with_context, debug_with, error_with,
}
use gpg_signing_service.Logging.Production.{entry_of, without_stack, error_with-production}

abbrev logger : LoggerWithContext
logger = with_context (record { is_development = false }) (some "r1") none

abbrev additional : LogContext
additional = ("action", text "sign") ∷ []

error_with-production_example :
    (debug_with logger "2025" "failed" (some additional) ≡ [])
    × ((error_with logger "2025" "failed" (error_of "no key" "at f" "Error") (some additional)
          ≡ json (entry_of logger "2025" "failed" (error_of "no key" "at f" "Error") additional)
            ∷ [])
        × ((Dict.get "error"
                (entry_of logger "2025" "failed" (error_of "no key" "at f" "Error") additional)
              ≡ some (without_stack (error_of "no key" "at f" "Error")))
            × (Dict.get "requestId"
                  (entry_of logger "2025" "failed" (error_of "no key" "at f" "Error") additional)
                ≡ Dict.first_some
                    (Dict.get "requestId" additional)
                    (Dict.get "requestId" logger.context))))
unfolding Dict.get
error_with-production_example =
    error_with-production logger "2025" "failed" (error_of "no key" "at f" "Error") additional
      (refl, tt) (refl, tt) refl
