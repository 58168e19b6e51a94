-- ===== src/History.antt =====
-- The requests that change the keys or use the cache of decrypted keys, as steps of the service: `POST /sign`, the uploads
-- and deletions of routes/admin.ts, all other requests, and a restart, which empties the memory. One request is served after
-- another; the passphrase stays.
pub mod Fresh
pub mod Transparent
mod Tests
use gpg_signing_service.Common.{ℕ, String, ◌≡◌, Option, none, some, List, []}
use gpg_signing_service.Oidc.{Net}
use gpg_signing_service.Keys.Format.{IsHexUpper}
use gpg_signing_service.KeyStorage.{storage_key}
use gpg_signing_service.Audit.{AuditRow}
use gpg_signing_service.ServiceTokens.{TokenRow}
use gpg_signing_service.Service.{Backend, World}
use gpg_signing_service.SignRequest.{Settings}
use gpg_signing_service.SignRequest
use gpg_signing_service.Sign.{sign}
use gpg_signing_service.KeyRoutes
use gpg_signing_service.KeyRoutes.{IsHeard, KeyUpload, X509KeyUpload, upload_key, upload_x509_key}
use gpg_signing_service.KeyRoutes.Existing.{delete_key}

module _ (B : Backend) (env : Settings) where
  open B use {bucket_storage, key_storage, openpgp}

  -- The body of an upload has passed the schema, which makes its key id upper case. No reply to an upload of a PGP key is
  -- lost after the key storage has stored the key: that upload leaves what the cache holds for its key id.
  pub data Step : World B → World B → Type 0 where
    signing :
        (r : SignRequest.Request) (course : SignRequest.Course) (w : World B)
        → Step w (sign B env r course w).1
    uploading :
        (request_id : String) (course : KeyRoutes.Course) (body : KeyUpload) (w : World B)
        → IsHexUpper 16 body.key_id
        → IsHeard course
        → Step w (upload_key B env.key_passphrase request_id course body w).1
    uploading_x509 :
        (request_id : String) (course : KeyRoutes.Course) (body : X509KeyUpload) (w : World B)
        → IsHexUpper 16 body.key_id
        → Step w (upload_x509_key B env.key_passphrase request_id course body w).1
    deleting :
        (request_id : String) (course : KeyRoutes.Course) (key_id : String) (w : World B)
        → Step w (delete_key B request_id course key_id w).1
    restarting : (w : World B) → Step w (record w { cache = record w.cache { cache = [] } })
    elsewhere :
        (buckets admin_buckets : bucket_storage.Store) (audit : List AuditRow)
        (tokens : List TokenRow) (net : Net) (w : World B)
        → Step w (record w {
          buckets = buckets;
          admin_buckets = admin_buckets;
          audit = audit;
          tokens = tokens;
          net = net;
        })

  -- The worlds that the service can come to from one without keys, in memory or stored.
  pub data Reachable : World B → Type 0 where
    start :
        (w : World B)
        → ((j : String) → key_storage.get (storage_key j) w.keys ≡ none)
        → w.cache.cache ≡ []
        → Reachable w
    after : (w w' : World B) → Reachable w → Step w w' → Reachable w'
