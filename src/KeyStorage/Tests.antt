-- ===== src/KeyStorage/Tests.antt =====
-- The key storage on concrete requests.
use gpg_signing_service.Common.{◌≡◌, none, some}
use gpg_signing_service.Storage.{Storage}
use gpg_signing_service.Storage.Assoc.{assoc}
use gpg_signing_service.Keys.{KeyData}
use gpg_signing_service.KeyStorage.{Request, fetch}
use gpg_signing_service.KeyStorage.Contract.{apply, change, stored_at, stored_at-fetch}
use gpg_signing_service.KeyStorage.Listing.{IsConsistent, fetch-IsConsistent}

abbrev storage : Storage KeyData
storage = assoc KeyData

abbrev signing_key : KeyData
signing_key = record {
  kind = none;
  key_id = some "A1";
  armored_private_key = some "armor";
  private_key_pem = none;
  certificate_pem = none;
  chain_pem = none;
  fingerprint = some "F1";
  created_at = some "2025";
  algorithm = some "EdDSA";
}

abbrev upload : Request
upload = record { path = "/store-key"; method = "POST"; key_id = none; payload = signing_key }

stored_at-fetch_example :
    stored_at storage storage.empty (fetch storage upload storage.empty).1 "A1"
    ≡ apply (change upload) (stored_at storage storage.empty storage.empty) "A1"
stored_at-fetch_example = stored_at-fetch storage storage.empty upload "A1"

empty-IsConsistent : IsConsistent storage storage.empty
unfolding assoc
empty-IsConsistent j = tt

fetch-IsConsistent_example : IsConsistent storage (fetch storage upload storage.empty).1
fetch-IsConsistent_example = fetch-IsConsistent storage storage.empty upload empty-IsConsistent
