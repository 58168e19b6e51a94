-- ===== src/Worker/Declared/Open.antt =====
-- The answers of the other handlers against the OpenAPI document.
use gpg_signing_service.Common.{Bool}
use gpg_signing_service.Service.{Backend}
use gpg_signing_service.SignRequest
use gpg_signing_service.SignRequest.{Calls, answered, rejected, key_id_param, is_listed}
use gpg_signing_service.Routes.{
  Media, application_json, text_plain, application_pgp_keys, application_pem_certificate_chain,
  Schema, Route,
}
use gpg_signing_service.Routes
use gpg_signing_service.Worker.{
  Payload, Reply, public_payload, sign_reply, AdminCall, uploading, uploading_x509, listing,
  showing, deleting, auditing, minting, listing_tokens, revoking, Deployment, route_of, handle,
}
use gpg_signing_service.Worker
use gpg_signing_service.Sign.Ends.{Ends}
use gpg_signing_service.Worker.Declared.{declares}

module _ (B : Backend) where
  abbrev signs : SignRequest.Response → Bool
  signs answer = declares Routes.sign_route (sign_reply answer)
