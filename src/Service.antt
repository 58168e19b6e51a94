-- ===== src/Service.antt =====
-- What the endpoints share: the state of the whole service, the parameters that stand for what is not in
-- the repository, and utils/durable-objects.ts.
pub mod Sample
pub mod Lookup
use gpg_signing_service.Common.{ℕ, String, Bool, Option, none, some, List, if◌then◌else◌, truthy}
use gpg_signing_service.Common.Result.{Result, throws}
use gpg_signing_service.Http.{is_ok}
use gpg_signing_service.Storage.{Storage}
use gpg_signing_service.Keys.{KeyData, AnyStoredKey}
use gpg_signing_service.Keys.Schema.{Zod, parse_any_stored_key}
use gpg_signing_service.RateLimiter
use gpg_signing_service.RateLimiter.{TokenBucket}
use gpg_signing_service.KeyStorage
use gpg_signing_service.KeyCache.{DecryptedKeyCache}
use gpg_signing_service.Signing.{Pgp}
use gpg_signing_service.X509.{Pki}
use gpg_signing_service.ServiceTokens.{TokenRow}
use gpg_signing_service.Audit.{AuditRow}
use gpg_signing_service.Oidc.{Net}

pub record Backend : Type 1 where
  pub bucket_storage : Storage TokenBucket
  pub key_storage : Storage KeyData
  pub openpgp : Pgp
  pub pki : Pki
  pub zod : Zod

-- The body of a request that has none.
abbrev pub no_payload : KeyData
no_payload = record {
  kind = none;
  key_id = none;
  armored_private_key = none;
  private_key_pem = none;
  certificate_pem = none;
  chain_pem = none;
  fingerprint = none;
  created_at = none;
  algorithm = none;
}

abbrev pub get_request : String → KeyStorage.Request
get_request key_id = record {
  path = "/get-key";
  method = "GET";
  key_id = some key_id;
  payload = no_payload;
}

-- The JSON of a body, as the fields of a key. No other body than a key or an error has such fields, or
-- comes with `/get-key`.
abbrev pub body_key : KeyStorage.Body → KeyData
body_key (KeyStorage.key k) = k
body_key _ = no_payload

-- the field `error`, empty where there is none
abbrev pub body_error : KeyStorage.Body → String
body_error (KeyStorage.error e) = e
body_error _ = ""

-- `error.error || fallback`
abbrev pub error_or : String → KeyStorage.Body → String
error_or fallback body = if truthy (body_error body) then body_error body else fallback

module _ (B : Backend) where
  open B use {bucket_storage, key_storage, openpgp, zod}

  pub record World : Type 0 where
    -- the rate limiters `global` and `admin`
    pub buckets : bucket_storage.Store
    pub admin_buckets : bucket_storage.Store
    pub keys : key_storage.Store
    pub cache : DecryptedKeyCache openpgp.PrivateKey
    -- the tables of the database
    pub audit : List AuditRow
    pub tokens : List TokenRow
    pub net : Net

  -- `fetchRateLimiter`
  unfoldable pub fetch_rate_limiter :
      String → ℕ → ℕ → bucket_storage.Store → RateLimiter.Response × bucket_storage.Store
  unfolding RateLimiter.fetch
  fetch_rate_limiter identity now later s =
      RateLimiter.fetch bucket_storage
        (record { path = "/consume"; method = "GET"; identity = some identity }) now later s

  -- `fetchKeyStorage`
  unfoldable pub fetch_key_storage :
      KeyStorage.Request → key_storage.Store → KeyStorage.Response × key_storage.Store
  unfolding KeyStorage.fetch
  fetch_key_storage r s = KeyStorage.fetch key_storage r s

  unfoldable pub fetch_key : String → key_storage.Store → KeyStorage.Response
  unfolding fetch_key_storage
  fetch_key key_id s = (fetch_key_storage (get_request key_id) s).0

  -- The key of the storage's answer.
  unfoldable pub stored_key : KeyStorage.Response → Result AnyStoredKey
  unfolding parse_any_stored_key
  stored_key answer =
      if is_ok answer.status
      then parse_any_stored_key zod (body_key answer.body)
      else throws (error_or "Key not found" answer.body)
