-- ===== src/KeyRoutes/Existing.antt =====
-- routes/admin.ts: the list of the keys, the public key of a key, and the deletion of a key.
use gpg_signing_service.Common.{String, Bool, false, none, some, not, if◌then◌else◌, ◌+s◌}
use gpg_signing_service.Common.Result.{Result, returns, throws, throw_if, ◌>>=◌, ◌>>◌}
use gpg_signing_service.Http.{status_code, is_ok, ok, not_found, internal_server_error}
use gpg_signing_service.Keys.{AnyStoredKey, pgp, x509}
use gpg_signing_service.Keys.Schema.{parse_any_stored_key}
use gpg_signing_service.KeyStorage
use gpg_signing_service.KeyCache
use gpg_signing_service.KeyCache.{DecryptedKeyCache}
use gpg_signing_service.Signing.{extract_public_key}
use gpg_signing_service.Errors.{
  Outcome, success, failure, key_list_error, key_not_found, key_processing_error, key_delete_error,
}
use gpg_signing_service.Audit.{AuditEntry, key_rotate, failed}
use gpg_signing_service.Service.{Backend, World, no_payload, get_request, body_key}
use gpg_signing_service.KeyRoutes.{Course, admin_entry, call_storage, logged}

-- The text of an answer with its content type.
pub data PublicKey : Type 0 where
  pgp_key : String → PublicKey
  certificate : String → PublicKey

abbrev pub delete_request : String → KeyStorage.Request
delete_request key_id = record {
  path = "/delete-key";
  method = "DELETE";
  key_id = some key_id;
  payload = no_payload;
}

abbrev pub list_request : KeyStorage.Request
list_request = record { path = "/list-keys"; method = "GET"; key_id = none; payload = no_payload }

-- `result.deleted`
abbrev pub is_deleted : KeyStorage.Body → Bool
is_deleted (KeyStorage.deletion deleted) = deleted
is_deleted _ = false

abbrev pub deletion_entry : String → String → Bool → AuditEntry
deletion_entry request_id key_id deleted =
    admin_entry request_id key_rotate key_id deleted none none

abbrev pub deletion_failed : String → String → String → AuditEntry
deletion_failed request_id key_id message =
    admin_entry request_id key_rotate key_id false (some key_delete_error) (some (failed message))

abbrev pub processed : Result PublicKey → Outcome PublicKey
processed (throws message) =
    failure internal_server_error "Failed to process key" key_processing_error
processed (returns key) = success ok key

module _ (B : Backend) where
  open B use {openpgp, zod}

  -- `if (!response.ok) throw`
  abbrev pub ok_or_throw : KeyStorage.Response → Result KeyStorage.Body
  ok_or_throw answer = do
    throw_if (not (is_ok answer.status))
        ("Key storage returned " +s zod.shown (status_code answer.status))
    returns answer.body

  -- `GET /admin/keys`
  unfoldable pub list_keys : Course → World B → Outcome KeyStorage.Body
  unfolding call_storage
  list_keys course w = elim ((call_storage B course list_request w.keys).0 >>= ok_or_throw) [
    | throws message ↦ failure internal_server_error "Failed to retrieve keys" key_list_error
    | returns result ↦ success ok result
  ]

  abbrev pub public_part : AnyStoredKey → Result PublicKey
  public_part (x509 key) = returns (certificate key.certificate_pem)
  public_part (pgp key) =
      extract_public_key openpgp key.armored_private_key >>= λ armored. returns (pgp_key armored)

  abbrev public_key_of : KeyStorage.Response → Outcome PublicKey
  public_key_of answer =
      if is_ok answer.status
      then processed (parse_any_stored_key zod (body_key answer.body) >>= public_part)
      else failure not_found "Key not found" key_not_found

  -- `GET /admin/keys/{keyId}/public`
  unfoldable pub get_public_key : Course → String → World B → Outcome PublicKey
  unfolding call_storage parse_any_stored_key extract_public_key
  get_public_key course key_id w = elim (call_storage B course (get_request key_id) w.keys).0 [
    | throws message ↦ processed (throws message)
    | returns answer ↦ public_key_of answer
  ]

  -- After the call of the storage: whether the key was there, or the message of what was thrown.
  unfoldable pub deleted_or_caught :
      String
      → Course
      → String
      → Result KeyStorage.Body
      → World B
      → Outcome KeyStorage.Body × World B
  unfolding KeyCache.invalidate
  deleted_or_caught request_id course key_id (throws message) w = (
    failure internal_server_error "Failed to delete key" key_delete_error,
    logged B course (deletion_failed request_id key_id message) w,
  )
  deleted_or_caught request_id course key_id (returns result) w = (
    success ok result,
    logged B course (deletion_entry request_id key_id (is_deleted result)) (
        if is_deleted result
        then record w { cache = KeyCache.invalidate openpgp.PrivateKey key_id w.cache }
        else w),
  )

  -- `DELETE /admin/keys/{keyId}`
  unfoldable pub delete_key : String → Course → String → World B → Outcome KeyStorage.Body × World B
  unfolding call_storage deleted_or_caught
  delete_key request_id course key_id w =
      let (answer, keys) = call_storage B course (delete_request key_id) w.keys in
      deleted_or_caught request_id course key_id (answer >>= ok_or_throw) (record w { keys = keys })
