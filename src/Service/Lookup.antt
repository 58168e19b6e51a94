-- ===== src/Service/Lookup.antt =====
-- What `/get-key` gives, by what is stored.
use gpg_signing_service.Common.{
  String, ◌≡◌, refl, true, none, some, arith, inl, inr, Option-cases, or_text, truthy,
}
use gpg_signing_service.Common.Result.{returns, throws_returns}
use gpg_signing_service.Http.{ok, not_found}
use gpg_signing_service.Keys.{KeyData, AnyStoredKey}
use gpg_signing_service.Keys.Schema.{parse_any_stored_key}
use gpg_signing_service.KeyStorage
use gpg_signing_service.KeyStorage.{storage_key, reply}
use gpg_signing_service.Service.{Backend, fetch_key, stored_key}

-- the key id that `/get-key` looks up
abbrev pub looked_up : String → String
looked_up id = or_text (some id) "default"

pub looked_up_given : (id : String) → truthy id ≡ true → looked_up id ≡ id
looked_up_given String.[] h = ground arith
looked_up_given (String.◌∷◌ c s) h = refl

module _ (B : Backend) where
  open B use {key_storage, zod}

  pub fetch_key-some :
      (id : String) (s : key_storage.Store) (d : KeyData)
      → key_storage.get (storage_key (looked_up id)) s ≡ some d
      → fetch_key B id s ≡ reply ok (KeyStorage.key d)
  unfolding fetch_key KeyStorage.fetch KeyStorage.get_key
  fetch_key-some id s d e = rw (e, KeyStorage.get_key) refl

  pub fetch_key-none :
      (id : String) (s : key_storage.Store)
      → key_storage.get (storage_key (looked_up id)) s ≡ none
      → fetch_key B id s ≡ reply not_found (KeyStorage.error "Key not found")
  unfolding fetch_key KeyStorage.fetch KeyStorage.get_key
  fetch_key-none id s e = rw (e, KeyStorage.get_key) refl

  -- A key that the storage serves is the parsed form of what is stored.
  pub stored_key-stored :
      (id : String) (s : key_storage.Store) (k : AnyStoredKey)
      → stored_key B (fetch_key B id s) ≡ returns k
      → (d : KeyData) × ((key_storage.get (storage_key (looked_up id)) s ≡ some d)
          × (parse_any_stored_key zod d ≡ returns k))
  unfolding stored_key
  stored_key-stored id s k e =
      elim (Option-cases (key_storage.get (storage_key (looked_up id)) s)) [
        | inr (d, h) ↦ (d, (h, rw (fetch_key-some id s d h) at e))
        | inl h ↦ absurd (throws_returns (rw (fetch_key-none id s h) at e))
      ]
