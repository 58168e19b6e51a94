-- ===== src/KeyStorage.antt =====
-- durable-objects/key-storage.ts: the signing keys, behind a small HTTP interface.
pub mod Contract
mod Tests
pub mod Listing
use gpg_signing_service.Common.{
  ℕ, String, Bool, true, false, Option, none, some, List, map, or_text, truthy, truthy?, ◌+s◌, ◌==◌,
  ◌&&◌, ◌||◌, not, if◌then◌else◌, length,
}
use gpg_signing_service.Http.{Status, ok, created, bad_request, not_found, method_not_allowed}
use gpg_signing_service.Storage.{Storage}
use gpg_signing_service.Keys.{KeyData, is_x509_key}

-- What `/list-keys` says of a key.
pub record KeyListItem : Type 0 where
  pub key_id : Option String
  pub fingerprint : Option String
  pub created_at : Option String
  pub algorithm : Option String

pub data Body : Type 0 where
  key : KeyData → Body
  error : String → Body
  plain : String → Body
  stored : Option String → Option String → Body
  keys : List KeyListItem → Body
  deletion : Bool → Body
  health : ℕ → Body

pub record Response : Type 0 where
  pub status : Status
  pub body : Body

abbrev pub reply : Status → Body → Response
reply status body = record { status = status; body = body }

pub record Request : Type 0 where
  pub path : String
  pub method : String
  -- the parameter `keyId` of the query
  pub key_id : Option String
  -- the body as JSON, which only `/store-key` reads
  pub payload : KeyData

abbrev pub storage_key : String → String
storage_key key_id = "key:" +s key_id

abbrev pub has_key_material : KeyData → Bool
has_key_material data' =
    if is_x509_key data'
    then truthy? data'.private_key_pem && truthy? data'.certificate_pem
    else truthy? data'.armored_private_key

abbrev pub list_item : KeyData → KeyListItem
list_item k = record {
  key_id = k.key_id;
  fingerprint = k.fingerprint;
  created_at = k.created_at;
  algorithm = k.algorithm;
}

module _ (S : Storage KeyData) where
  open S use {Store, get, put, delete, list}

  unfoldable pub get_key : String → Store → Response
  get_key key_id s = elim (get (storage_key key_id) s) [
    | none ↦ reply not_found (error "Key not found")
    | some k ↦ reply ok (key k)
  ]

  -- The identifier that a checked body has.
  abbrev id_of : KeyData → String
  id_of k = or_text k.key_id ""

  unfoldable pub store_key : KeyData → Store → Response × Store
  store_key k s =
      if not (has_key_material k) || not (truthy? k.key_id)
      then (reply bad_request (error "Missing required fields"), s)
      else (reply created (stored k.key_id k.fingerprint), put (storage_key (id_of k)) k s)

  unfoldable pub list_keys : Store → Response
  list_keys s = reply ok (keys (map (λ entry. list_item entry.1) (list "key:" s)))

  unfoldable pub delete_key : String → Store → Response × Store
  delete_key key_id s =
      if truthy key_id
      then (let (s', existed) = delete (storage_key key_id) s in (reply ok (deletion existed), s'))
      else (reply bad_request (error "Key ID required"), s)

  unfoldable pub health_check : Store → Response
  health_check s = reply ok (health (length (list "key:" s)))

  unfoldable pub fetch : Request → Store → Response × Store
  fetch r s =
      if r.path == "/get-key"
      then (get_key (or_text r.key_id "default") s, s)
      else if r.path == "/store-key"
      then if r.method == "POST"
        then store_key r.payload s
        else (reply method_not_allowed (plain "Method not allowed"), s)
      else if r.path == "/list-keys"
      then (list_keys s, s)
      else if r.path == "/delete-key"
      then if r.method == "DELETE"
        then delete_key (or_text r.key_id "") s
        else (reply method_not_allowed (plain "Method not allowed"), s)
      else if r.path == "/health"
      then (health_check s, s)
      else (reply not_found (plain "Not found"), s)
