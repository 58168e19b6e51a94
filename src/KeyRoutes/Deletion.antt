-- ===== src/KeyRoutes/Deletion.antt =====
-- What a deletion does to the service.
use gpg_signing_service.Common.{String, Bool, is_some}
use gpg_signing_service.Common.Result.{returns}
use gpg_signing_service.KeyStorage
use gpg_signing_service.KeyStorage.{storage_key}
use gpg_signing_service.Service.{Backend, World}
use gpg_signing_service.KeyRoutes.{Course}
use gpg_signing_service.KeyRoutes.Existing.{deleted_or_caught}
use gpg_signing_service.KeyRoutes.Cases.{without_key}

module _ (B : Backend) (request_id : String) (course : Course) (key_id : String) where
  open B use {key_storage, openpgp}

  abbrev pub is_stored : World B → Bool
  is_stored w = is_some (key_storage.get (storage_key key_id) w.keys)

  -- The world after the storage's answer, by whether the key was stored.
  abbrev after : Bool → World B → World B
  after deleted w =
      (deleted_or_caught B request_id course key_id (returns (KeyStorage.deletion deleted))
        (without_key B key_id w)).1
