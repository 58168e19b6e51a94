-- ===== src/Signing/Others.antt =====
-- Signing with a key leaves the other entries of the cache.
use gpg_signing_service.Common.{
  ℕ, ◌+◌, String, ◌≡◌, refl, ◌∙◌, false, Option, none, some, arith, ◌==◌,
}
use gpg_signing_service.Common.Result.{Result, returns, throws}
use gpg_signing_service.Dict
use gpg_signing_service.Keys.{StoredKey}
use gpg_signing_service.KeyCache
use gpg_signing_service.KeyCache.{DecryptedKeyCache, CacheEntry}
use gpg_signing_service.Signing.{Pgp, open_key, keep_key, use_cached, signing_key, sign_commit_data}

module _ (P : Pgp) (stored : StoredKey) (passphrase : String) (now later : ℕ) (j : String) where
  module _ (other : (stored.key_id == j) ≡ false) where
    get-keep_key :
        (opened : Result P.PrivateKey) (c : DecryptedKeyCache P.PrivateKey)
        → Dict.get j (keep_key P stored.key_id opened later c).1.cache ≡ Dict.get j c.cache
    unfolding KeyCache.set
    get-keep_key (throws m) c = refl
    get-keep_key (returns key) c =
        let entry : CacheEntry P.PrivateKey = record { key = key; expires_at = later + c.ttl } in
        ground (arith, Dict.get-set stored.key_id j entry c.cache, other)

    get-use_cached :
        (cached : Option P.PrivateKey) (c : DecryptedKeyCache P.PrivateKey)
        → Dict.get j (use_cached P stored passphrase later cached c).1.cache ≡ Dict.get j c.cache
    unfolding use_cached
    get-use_cached (some key) c = refl
    get-use_cached none c = get-keep_key (open_key P passphrase stored) c

    get-get :
        (c : DecryptedKeyCache P.PrivateKey)
        → Dict.get j (KeyCache.get P.PrivateKey stored.key_id now c).1.cache ≡ Dict.get j c.cache
    unfolding KeyCache.get
    get-get c = ground (arith, Dict.get-delete stored.key_id j c.cache, other)

    pub get-sign_commit_data :
        (data' : String) (c : DecryptedKeyCache P.PrivateKey)
        → Dict.get j (sign_commit_data P data' stored passphrase now later c).1.cache
          ≡ Dict.get j c.cache
    unfolding sign_commit_data signing_key
    get-sign_commit_data data' c =
        let (cached, c') = KeyCache.get P.PrivateKey stored.key_id now c in
        get-use_cached cached c' ∙ get-get c
