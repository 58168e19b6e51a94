-- ===== src/Signing/Overtaken.antt =====
-- A signature that is overtaken by an upload. Opening a key takes time, and between the look at the cache and the write
-- to it another request can be served: the two halves of `signing_key` are taken apart here.
use gpg_signing_service.Common.{
  ℕ, ◌+◌, String, ◌≡◌, refl, ◌∙◌, true, false, Option, none, some, arith, ltb, leb, eq_iff, ap, sym,
  if◌then◌else◌, inl, inr, Bool-cases,
}
use gpg_signing_service.Common.Result.{returns, Result-cases}
use gpg_signing_service.Dict
use gpg_signing_service.Keys.{StoredKey}
use gpg_signing_service.KeyCache
use gpg_signing_service.KeyCache.{DecryptedKeyCache, CacheEntry}
use gpg_signing_service.Signing.{Pgp, open_key, use_cached, signing_key}
use gpg_signing_service.Signing.Cached.{dropped, expired, hit}

module _ (P : Pgp) (passphrase : String) where
  abbrev Cache : Type 0
  Cache = DecryptedKeyCache P.PrivateKey

  -- The cache after a signature with the old key has missed it, an upload has then dropped the key id, and the signature
  -- has gone on.
  abbrev pub overtaken : StoredKey → (written_at : ℕ) → Cache → Cache
  overtaken old written_at c =
      (use_cached P old passphrase written_at none
        (KeyCache.invalidate P.PrivateKey old.key_id c)).1

  module _ (old new : StoredKey) (same : new.key_id ≡ old.key_id) (key : P.PrivateKey)
      (opened : open_key P passphrase old ≡ returns key) (written_at now later : ℕ)
      (c : Cache) where
    abbrev entry : CacheEntry P.PrivateKey
    entry = record { key = key; expires_at = written_at + c.ttl }

    abbrev left : Cache
    left =
        KeyCache.set P.PrivateKey old.key_id key written_at
          (KeyCache.invalidate P.PrivateKey old.key_id c)

    overtaken-left : overtaken old written_at c ≡ left
    unfolding use_cached
    overtaken-left = rw (overtaken, opened, use_cached) refl

    left_entry : Dict.get new.key_id left.cache ≡ some entry
    unfolding KeyCache.set KeyCache.invalidate
    left_entry =
        Dict.get-set old.key_id new.key_id entry (Dict.delete old.key_id c.cache)
        ∙ rw (sym same) (ground (arith, eq_iff new.key_id new.key_id))

    -- opening a key that is not cached gives its own result
    opened_new :
        (c' : Cache) → (use_cached P new passphrase later none c').0 ≡ open_key P passphrase new
    unfolding use_cached
    opened_new c' = elim (Result-cases (open_key P passphrase new)) [
      | inl (k, e) ↦ rw (e, use_cached) refl
      | inr (m, e) ↦ rw (e, use_cached) refl
    ]

    after_get :
        (cached : Option P.PrivateKey × Cache)
        → KeyCache.get P.PrivateKey new.key_id now left ≡ cached
        → (signing_key P new passphrase now later left).0
          ≡ (use_cached P new passphrase later cached.0 cached.1).0
    unfolding signing_key
    after_get cached e = ap (λ x. (use_cached P new passphrase later x.0 x.1).0) e

    -- A signature that has read the old key of a key id before an upload replaces it, and caches it after the upload has
    -- dropped the key id, leaves the old key behind: signatures for the new key are made with the old one until the time
    -- to live is over, and only then with the new one.
    pub signing_key-overtaken :
        (signing_key P new passphrase now later (overtaken old written_at c)).0
        ≡ (if leb now (written_at + c.ttl) then returns key else open_key P passphrase new)
    unfolding use_cached
    signing_key-overtaken =
        ap (λ x. (signing_key P new passphrase now later x).0) overtaken-left
        ∙ elim (Bool-cases (ltb (written_at + c.ttl) now)) [
          | inl past ↦
              let late : leb now (written_at + c.ttl) ≡ false = ground (arith, past) in
              after_get (none, dropped P new passphrase now later left)
                (expired P new passphrase now later left entry left_entry past)
              ∙ rw late (opened_new (dropped P new passphrase now later left))
          | inr kept ↦
              let timely : leb now (written_at + c.ttl) ≡ true = ground (arith, kept) in
              after_get (some key, left) (hit P new passphrase now later left entry left_entry kept)
              ∙ rw timely refl
        ]
