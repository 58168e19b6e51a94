-- ===== src/Signing/Cached.antt =====
-- Signing with the cache against signing without it.
use gpg_signing_service.Common.{
  ℕ, String, ◌+◌, ◌∙◌, ◌≡◌, refl, true, false, Option, none, some, ltb, arith, inl, inr, eq_iff,
  sym, ap, Option-cases, Bool-cases,
}
use mathlib.Core.Path.{subst}
use gpg_signing_service.Common.Result.{Result, returns, ◌>>=◌, Result-cases}
use gpg_signing_service.Dict
use gpg_signing_service.Keys.{StoredKey}
use gpg_signing_service.KeyCache
use gpg_signing_service.KeyCache.{DecryptedKeyCache, CacheEntry}
use gpg_signing_service.Signing.{
  Pgp, open_key, keep_key, use_cached, signing_key, sign_with, sign_commit_data,
}

module _ (P : Pgp) where
  module _ (stored : StoredKey) (passphrase : String) where
    -- An entry of the cache holds what opening the stored key gives.
    abbrev pub Holds : Option (CacheEntry P.PrivateKey) → Type 0
    Holds none = Unit
    Holds (some entry) = open_key P passphrase stored ≡ returns entry.key

    abbrev pub Reflects : DecryptedKeyCache P.PrivateKey → Type 0
    Reflects c = Holds (Dict.get stored.key_id c.cache)

    module _ (now later : ℕ) (c : DecryptedKeyCache P.PrivateKey) where
      abbrev Right : Result P.PrivateKey × DecryptedKeyCache P.PrivateKey → Type 0
      Right (key, c') = (key ≡ open_key P passphrase stored) × Reflects c'

      set-Reflects :
          (key : P.PrivateKey) (c' : DecryptedKeyCache P.PrivateKey)
          → open_key P passphrase stored ≡ returns key
          → Reflects (KeyCache.set P.PrivateKey stored.key_id key later c')
      unfolding KeyCache.set
      set-Reflects key c' o =
          let entry : CacheEntry P.PrivateKey = record { key = key; expires_at = later + c'.ttl } in
          let same = eq_iff stored.key_id stored.key_id in
          let found : Dict.get stored.key_id (Dict.set stored.key_id entry c'.cache) ≡ some entry =
            Dict.get-set stored.key_id stored.key_id entry c'.cache ∙ ground (arith, same) in
          subst Holds (sym found) o

      keep_key-Right :
          (c' : DecryptedKeyCache P.PrivateKey)
          → Reflects c'
          → Right (keep_key P stored.key_id (open_key P passphrase stored) later c')
      keep_key-Right c' h = elim (Result-cases (open_key P passphrase stored)) [
        | inl (key, o) ↦ rw o (refl, set-Reflects key c' o)
        | inr (m, o) ↦ rw o (refl, h)
      ]

      delete-Reflects : Reflects (record c { cache = Dict.delete stored.key_id c.cache })
      delete-Reflects =
          let found : Dict.get stored.key_id (Dict.delete stored.key_id c.cache) ≡ none =
            Dict.get-delete stored.key_id stored.key_id c.cache
            ∙ ground (arith, eq_iff stored.key_id stored.key_id) in
          subst Holds (sym found) tt

      abbrev pub dropped : DecryptedKeyCache P.PrivateKey
      dropped = record c { cache = Dict.delete stored.key_id c.cache }

      missed :
          Dict.get stored.key_id c.cache ≡ none
          → KeyCache.get P.PrivateKey stored.key_id now c ≡ (none, c)
      unfolding KeyCache.get
      missed e = rw (e, KeyCache.get) refl

      pub expired :
          (entry : CacheEntry P.PrivateKey)
          → Dict.get stored.key_id c.cache ≡ some entry
          → ltb entry.expires_at now ≡ true
          → KeyCache.get P.PrivateKey stored.key_id now c ≡ (none, dropped)
      unfolding KeyCache.get
      expired entry e old = rw (e, old, KeyCache.get) refl

      pub hit :
          (entry : CacheEntry P.PrivateKey)
          → Dict.get stored.key_id c.cache ≡ some entry
          → ltb entry.expires_at now ≡ false
          → KeyCache.get P.PrivateKey stored.key_id now c ≡ (some entry.key, c)
      unfolding KeyCache.get
      hit entry e fresh = rw (e, fresh, KeyCache.get) refl

      use_cached-Right :
          (cached : Option P.PrivateKey × DecryptedKeyCache P.PrivateKey)
          → KeyCache.get P.PrivateKey stored.key_id now c ≡ cached
          → Right (use_cached P stored passphrase later cached.0 cached.1)
          → Right (signing_key P stored passphrase now later c)
      unfolding signing_key
      use_cached-Right cached e right =
          subst (λ p. Right (use_cached P stored passphrase later p.0 p.1)) (sym e) right

      signing_key-Right : Reflects c → Right (signing_key P stored passphrase now later c)
      unfolding use_cached
      signing_key-Right h = elim (Option-cases (Dict.get stored.key_id c.cache)) [
        | inl e ↦ use_cached-Right (none, c) (missed e) (keep_key-Right c h)
        | inr (entry, e) ↦ elim (Bool-cases (ltb entry.expires_at now)) [
          | inl old ↦
              use_cached-Right (none, dropped) (expired entry e old)
                (keep_key-Right dropped delete-Reflects)
          | inr fresh ↦
              use_cached-Right (some entry.key, c) (hit entry e fresh) (sym (rw e at h), h)
        ]
      ]

  -- If the cache holds nothing else for a key than what opening the stored key gives, signing with the
  -- cache has the result of opening the stored key and signing with it, and the cache stays so.
  pub sign_commit_data-open_key :
      (data' : String) (stored : StoredKey) (passphrase : String) (now later : ℕ)
      (c : DecryptedKeyCache P.PrivateKey)
      → Reflects stored passphrase c
      → ((sign_commit_data P data' stored passphrase now later c).0
          ≡ (open_key P passphrase stored >>= sign_with P data' stored))
        × Reflects stored passphrase (sign_commit_data P data' stored passphrase now later c).1
  unfolding sign_commit_data
  sign_commit_data-open_key data' stored passphrase now later c reflects =
      let (key, kept) = signing_key-Right stored passphrase now later c reflects in
      (ap (λ r. r >>= sign_with P data' stored) key, kept)
