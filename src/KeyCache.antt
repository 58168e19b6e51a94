-- ===== src/KeyCache.antt =====
-- utils/key-cache.ts: decrypted keys, kept in memory for a limited time. `K` is the type of the keys
-- (openpgp.PrivateKey), `now` is `Date.now()` in milliseconds.
pub mod View
use gpg_signing_service.Common.{
  ℕ, ◌+◌, ◌*◌, String, Option, none, some, [], ◌∷◌, ltb, if◌then◌else◌, length,
}
use gpg_signing_service.Dict
use gpg_signing_service.Dict.{Dict}

-- utils/constants.ts, CACHE_TTL.DECRYPTED_KEY: five minutes
abbrev pub decrypted_key_ttl : ℕ
decrypted_key_ttl = 5 * (60 * 1000)

module _ (K : Type 0) where
  pub record CacheEntry : Type 0 where
    pub key : K
    pub expires_at : ℕ

  pub record DecryptedKeyCache : Type 0 where
    pub cache : Dict CacheEntry
    pub ttl : ℕ

  abbrev pub new_cache : ℕ → DecryptedKeyCache
  new_cache ttl = record { cache = []; ttl = ttl }

  unfoldable pub get : String → ℕ → DecryptedKeyCache → Option K × DecryptedKeyCache
  unfolding Dict.get Dict.delete
  get key_id now c = elim (Dict.get key_id c.cache) [
    | none ↦ (none, c)
    | some entry ↦
        if ltb entry.expires_at now
        then (none, record c { cache = Dict.delete key_id c.cache })
        else (some entry.key, c)
  ]

  unfoldable pub set : String → K → ℕ → DecryptedKeyCache → DecryptedKeyCache
  unfolding Dict.set
  set key_id key now c = record c {
    cache = Dict.set key_id (record { key = key; expires_at = now + c.ttl }) c.cache;
  }

  unfoldable pub invalidate : String → DecryptedKeyCache → DecryptedKeyCache
  unfolding Dict.delete
  invalidate key_id c = record c { cache = Dict.delete key_id c.cache }

  unfoldable pub clear : DecryptedKeyCache → DecryptedKeyCache
  clear c = record c { cache = [] }

  -- the loop of `stats` over the entries
  purge : ℕ → Dict CacheEntry → Dict CacheEntry → Dict CacheEntry
  purge now [] cache = cache
  purge now ((key_id, entry) ∷ rest) cache =
      purge now rest (if ltb entry.expires_at now then Dict.delete key_id cache else cache)

  -- the size and the ttl
  unfoldable pub stats : ℕ → DecryptedKeyCache → (ℕ × ℕ) × DecryptedKeyCache
  unfolding purge Dict.delete
  stats now c =
      let cache = purge now c.cache c.cache in ((length cache, c.ttl), record c { cache = cache })
