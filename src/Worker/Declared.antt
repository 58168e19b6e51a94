-- ===== src/Worker/Declared.antt =====
-- Whether the OpenAPI document declares the status of an answer.
pub mod Admin
pub mod Open
use gpg_signing_service.Common.{
  ℕ, String, ◌≡◌, refl, ◌∙◌, ap, Bool, true, false, Option, none, some, List, [], ◌∷◌, ◌&&◌, eqb,
  any, if◌then◌else◌, inl, inr, Bool-cases, Option-cases, contains, arith, not, truthy,
}
use gpg_signing_service.Common.Int.{ℤ}
use gpg_signing_service.Common.Result.{Result, returns, throws, Result-cases, ◌>>=◌}
use gpg_signing_service.Http.{Status, status_code, is_ok}
use gpg_signing_service.Errors.{Outcome, success, failure}
use gpg_signing_service.KeyStorage
use gpg_signing_service.Keys.{AnyStoredKey, pgp, x509, create_key_id}
use gpg_signing_service.Keys.Schema.{parse_any_stored_key}
use gpg_signing_service.RateLimiter
use gpg_signing_service.RateLimiter.{allowed, denied}
use gpg_signing_service.Signing.{ParsedKeyInfo, extract_public_key}
use gpg_signing_service.X509.{X509KeyInfo, parse_and_validate_x509_key}
use gpg_signing_service.Service.{
  Backend, World, body_key, get_request, fetch_key_storage, fetch_key, stored_key,
}
use gpg_signing_service.SignRequest
use gpg_signing_service.SignRequest.{
  Settings, Calls, answered, rejected, key_id_param, is_listed, is_not_found,
}
use gpg_signing_service.KeyRoutes
use gpg_signing_service.KeyRoutes.{
  KeyUpload, X509KeyUpload, x509_of, upload_key, upload_x509_key, upload_stored, upload_x509_stored,
  upload_caught, prepare, store, call_storage,
}
use gpg_signing_service.KeyRoutes.Existing.{
  PublicKey, pgp_key, certificate, list_request, list_keys, public_part, get_public_key,
  delete_request, deleted_or_caught, delete_key, processed, ok_or_throw,
}
use gpg_signing_service.TokenRoutes
use gpg_signing_service.TokenRoutes.{
  TokenCreate, create_caught, create_token, inserted, list_tokens, revoked, revoke_token,
}
use gpg_signing_service.ServiceTokens.{revoke_service_token}
use gpg_signing_service.Audit.Query.{AuditQuery, audit_logs_route}
use gpg_signing_service.Sign.{
  caught, finish, sign_with_key, sign_keyed, sign_limited, limiter_called, call_both, tried, sign,
}
use gpg_signing_service.App.{published, public_key}
use gpg_signing_service.Routes.{
  Media, application_json, text_plain, application_pgp_keys, application_pem_certificate_chain,
  Schema, Route,
}
use gpg_signing_service.Routes
use gpg_signing_service.Worker.{
  Payload, Reply, reply_of, public_payload, sign_reply, AdminCall, uploading, uploading_x509,
  listing, showing, deleting, auditing, minting, listing_tokens, revoking, Deployment, route_of,
  handle,
}
use gpg_signing_service.Worker

-- Whether the responses of a route have one with the status of the answer.
abbrev pub declares : Route → Reply → Bool
declares route reply =
    any (λ a. eqb (status_code a.status) (status_code reply.status)) route.responses
