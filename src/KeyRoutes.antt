-- ===== src/KeyRoutes.antt =====
-- routes/admin.ts: the keys. A request is one that the authentication and the schemas of
-- schemas/keys.ts have let through; a key id in a body is in upper case, as KeyIdSchema makes it.
pub mod Existing
pub mod Cases
pub mod Upload
pub mod Served
pub mod Deletion
pub mod Tests
use gpg_signing_service.Common.{
  ℕ, String, Bool, true, false, Option, none, some, List, [], ◌∷◌, ◌&&◌, not, if◌then◌else◌, ◌≡◌,
  ◌⊎◌,
}
use gpg_signing_service.Common.Result.{Result, returns, throws, throw_if, ◌>>=◌, ◌>>◌}
use gpg_signing_service.Http.{Status, is_ok, ok, created, not_found, internal_server_error}
use gpg_signing_service.Keys.{
  StoredKey, StoredX509Key, AnyStoredKey, pgp, x509, create_key_id, create_armored_private_key,
}
use gpg_signing_service.Keys.Schema.{Zod, data_of, parse_any_stored_key}
use gpg_signing_service.KeyStorage
use gpg_signing_service.KeyCache
use gpg_signing_service.KeyCache.{DecryptedKeyCache}
use gpg_signing_service.Signing.{ParsedKeyInfo, parse_and_validate_key}
use gpg_signing_service.X509.{X509KeyInfo, parse_and_validate_x509_key}
use gpg_signing_service.Errors.{
  ErrorCode, Outcome, success, failure, key_upload_error, key_list_error, key_not_found,
  key_processing_error, key_delete_error,
}
use gpg_signing_service.Audit.{
  AuditEntry, AuditAction, Metadata, key_upload, key_rotate, uploaded, uploaded_x509, failed,
  failed_x509, Recording, log_audit_event,
}
use gpg_signing_service.Service.{
  Backend, World, no_payload, fetch_key_storage, fetch_key, get_request, body_key, error_or,
}

-- KeyUpload and X509KeyUpload
pub record KeyUpload : Type 0 where
  pub armored_private_key : String
  pub key_id : String

pub record X509KeyUpload : Type 0 where
  pub key_id : String
  pub private_key_pem : String
  pub certificate_pem : String
  pub chain_pem : Option String

-- What the surroundings do during a request: `new Date().toISOString()`, a call of the key storage that rejects with a
-- message, and whether the storage has served it before its reply was lost, and the write to the audit log.
pub record Course : Type 0 where
  pub created_at : String
  pub call_fails : Option String
  pub reached : Bool
  pub recording : Recording

pub record KeyResponse : Type 0 where
  pub key_id : String
  pub fingerprint : String
  pub algorithm : String
  -- the user of a PGP key, the subject of a certificate
  pub owner : String

abbrev pub admin_entry :
    String → AuditAction → String → Bool → Option ErrorCode → Option Metadata → AuditEntry
admin_entry request_id action key_id done error_code metadata = record {
  request_id = request_id;
  action = action;
  issuer = "admin";
  subject = "admin";
  key_id = key_id;
  success = done;
  error_code = error_code;
  metadata = metadata;
}

abbrev pub upload_failed : String → Metadata → AuditEntry
upload_failed request_id metadata =
    admin_entry request_id key_upload "unknown" false (some key_upload_error) (some metadata)

abbrev pub store_request : AnyStoredKey → KeyStorage.Request
store_request k = record {
  path = "/store-key";
  method = "POST";
  key_id = none;
  payload = data_of k;
}

-- `if (!storeResponse.ok) throw`
abbrev stored_or_throw : KeyStorage.Response → Result (Unit {0})
stored_or_throw answer =
    throw_if (not (is_ok answer.status)) (error_or "Failed to store key" answer.body)

abbrev pub response_of : String → ParsedKeyInfo → KeyResponse
response_of key_id info = record {
  key_id = key_id;
  fingerprint = info.fingerprint;
  algorithm = info.algorithm;
  owner = info.user_id;
}

abbrev pub upload_entry : String → String → ParsedKeyInfo → AuditEntry
upload_entry request_id key_id info =
    admin_entry request_id key_upload key_id true none
      (some (uploaded info.fingerprint info.algorithm info.user_id))

abbrev pub x509_of : Course → X509KeyUpload → X509KeyInfo → StoredX509Key
x509_of course body info = record {
  key_id = body.key_id;
  private_key_pem = body.private_key_pem;
  certificate_pem = body.certificate_pem;
  chain_pem = body.chain_pem;
  fingerprint = info.fingerprint;
  created_at = course.created_at;
  algorithm = info.algorithm;
}

-- The reply to a call that the key storage has served is not lost.
abbrev pub IsHeard : Course → Type 0
IsHeard course = (course.call_fails ≡ none) ⊎ (course.reached ≡ false)

module _ (B : Backend) where
  open B use {key_storage, openpgp, pki, zod}

  -- A call of the key storage: its answer, or the message with which it rejects.
  unfoldable pub call_storage :
      Course
      → KeyStorage.Request
      → key_storage.Store
      → Result KeyStorage.Response × key_storage.Store
  unfolding fetch_key_storage
  call_storage course r s = elim course.call_fails [
    | some message ↦ (throws message, if course.reached then (fetch_key_storage B r s).1 else s)
    | none ↦ let (answer, s') = fetch_key_storage B r s in (returns answer, s')
  ]

  unfoldable pub store : Course → AnyStoredKey → World B → Result (Unit {0}) × World B
  unfolding call_storage
  store course k w =
      let (answer, keys) = call_storage course (store_request k) w.keys in
      (answer >>= stored_or_throw, record w { keys = keys })

  -- The key that is made of a body; the second part is what the answer says of it.
  unfoldable pub prepare :
      (passphrase : String) → Course → KeyUpload → Result (StoredKey × ParsedKeyInfo)
  unfolding parse_and_validate_key create_armored_private_key create_key_id
  prepare passphrase course body = do
    info ← parse_and_validate_key openpgp zod.shown body.armored_private_key passphrase
    armored ← create_armored_private_key zod.shown body.armored_private_key
    key_id ← create_key_id body.key_id
    returns (
      record {
        armored_private_key = armored;
        key_id = key_id;
        fingerprint = info.fingerprint;
        created_at = course.created_at;
        algorithm = info.algorithm;
      },
      info,
    )

  abbrev pub logged : Course → AuditEntry → World B → World B
  logged course entry w = record w { audit = log_audit_event course.recording entry w.audit }

  unfoldable pub upload_caught :
      String → Course → (String → Metadata) → String → World B → Outcome KeyResponse × World B
  upload_caught request_id course metadata message w = (
    failure internal_server_error message key_upload_error,
    logged course (upload_failed request_id (metadata message)) w,
  )

  -- After the call of the storage.
  unfoldable pub upload_stored :
      String
      → Course
      → String
      → ParsedKeyInfo
      → Result (Unit {0})
      → World B
      → Outcome KeyResponse × World B
  unfolding upload_caught KeyCache.invalidate
  upload_stored request_id course key_id info (throws message) w =
      upload_caught request_id course failed message w
  upload_stored request_id course key_id info (returns _) w = (
    success created (response_of key_id info),
    logged course (upload_entry request_id key_id info)
        (record w { cache = KeyCache.invalidate openpgp.PrivateKey key_id w.cache }),
  )

  -- `POST /admin/keys`
  unfoldable pub upload_key :
      (passphrase : String) → String → Course → KeyUpload → World B → Outcome KeyResponse × World B
  unfolding prepare store upload_caught upload_stored
  upload_key passphrase request_id course body w = elim (prepare passphrase course body) [
    | throws message ↦ upload_caught request_id course failed message w
    | returns (key, info) ↦
        let (result, w') = store course (pgp key) w in
        upload_stored request_id course body.key_id info result w'
  ]

  unfoldable pub upload_x509_stored :
      String
      → Course
      → String
      → X509KeyInfo
      → Result (Unit {0})
      → World B
      → Outcome KeyResponse × World B
  unfolding upload_caught
  upload_x509_stored request_id course key_id info (throws message) w =
      upload_caught request_id course failed_x509 message w
  upload_x509_stored request_id course key_id info (returns _) w = (
    success created (record {
      key_id = key_id;
      fingerprint = info.fingerprint;
      algorithm = info.algorithm;
      owner = info.subject;
    }),
    logged course
        (admin_entry request_id key_upload key_id true none
          (some (uploaded_x509 info.fingerprint info.algorithm info.subject)))
        w,
  )

  -- `POST /admin/keys/x509`
  unfoldable pub upload_x509_key :
      (passphrase : String)
      → String
      → Course
      → X509KeyUpload
      → World B
      → Outcome KeyResponse × World B
  unfolding parse_and_validate_x509_key store upload_caught upload_x509_stored
  upload_x509_key passphrase request_id course body w =
      elim (parse_and_validate_x509_key pki zod.shown body.private_key_pem body.certificate_pem
        passphrase) [
          | throws message ↦ upload_caught request_id course failed_x509 message w
          | returns info ↦
              let (result, w') = store course (x509 (x509_of course body info)) w in
              upload_x509_stored request_id course body.key_id info result w'
        ]
