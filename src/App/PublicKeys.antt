-- ===== src/App/PublicKeys.antt =====
-- The public key endpoint against the one for administrators.
use gpg_signing_service.Common.{String}
use gpg_signing_service.Common.Result.{Result, returns, throws}
use gpg_signing_service.Http.{ok, internal_server_error}
use gpg_signing_service.Keys.{AnyStoredKey, pgp, x509}
use gpg_signing_service.KeyStorage
use gpg_signing_service.Signing.{extract_public_key}
use gpg_signing_service.Errors.{Outcome, success, failure, key_processing_error}
use gpg_signing_service.Service.{Backend}
use gpg_signing_service.KeyRoutes.Existing.{PublicKey, pgp_key, certificate}

module _ (B : Backend) where
  open B use {key_storage, openpgp, zod}

  -- What the endpoint for administrators answers for a key.
  abbrev pub shown_to_admin : AnyStoredKey → Outcome PublicKey
  shown_to_admin (x509 key) = success ok (certificate key.certificate_pem)
  shown_to_admin (pgp key) = elim (extract_public_key openpgp key.armored_private_key) [
    | throws message ↦ failure internal_server_error "Failed to process key" key_processing_error
    | returns armored ↦ success ok (pgp_key armored)
  ]

  -- What everyone is answered.
  abbrev pub shown_to_all : AnyStoredKey → Outcome String
  shown_to_all (x509 key) =
      failure internal_server_error "Key processing error" key_processing_error
  shown_to_all (pgp key) = elim (extract_public_key openpgp key.armored_private_key) [
    | throws message ↦ failure internal_server_error "Key processing error" key_processing_error
    | returns armored ↦ success ok armored
  ]
