-- ===== src/Errors/Tests.antt =====
-- An unknown error in production.
use gpg_signing_service.Common.{
  String, ◌≡◌, refl, false, none, some, any, length, truthy?, if◌then◌else◌,
}
use gpg_signing_service.Http.{Status, internal_server_error}
use gpg_signing_service.Errors.{internal_error}
use gpg_signing_service.Logging.{Logger, error_of}
use gpg_signing_service.Errors.Response.{handle_unknown_error, message_of}
use gpg_signing_service.Errors.Stackless.{shows_stack, handle_unknown_error-stackless}

abbrev logger : Logger
logger = record { is_development = false }

abbrev shown : Status → String
shown status = "500"

handle_unknown_error-stackless_example :
    ((handle_unknown_error logger shown "2025"
        (some "r1")
        (error_of "no key" "at f" "Error")
        "failed"
        internal_error).1
      ≡ (
        internal_server_error,
        record {
          error = message_of (error_of "no key" "at f" "Error") "failed";
          code = internal_error;
          request_id = if truthy? (some "r1") then some "r1" else none;
        },
      ))
    × ((length
            (handle_unknown_error logger shown "2025"
              (some "r1")
              (error_of "no key" "at f" "Error")
              "failed"
              internal_error).0
          ≡ 2)
        × (any shows_stack
              (handle_unknown_error logger shown "2025"
                (some "r1")
                (error_of "no key" "at f" "Error")
                "failed"
                internal_error).0
            ≡ false))
handle_unknown_error-stackless_example =
    handle_unknown_error-stackless logger refl shown "2025" (some "r1")
      (error_of "no key" "at f" "Error") "failed" internal_error refl
