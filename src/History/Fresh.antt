-- ===== src/History/Fresh.antt =====
-- The cache of decrypted keys never holds anything for a key id but what opening the stored key gives.
use gpg_signing_service.Common.{
  String, ◌≡◌, refl, ◌∙◌, Bool, true, false, Option, none, some, [], arith, inl, inr, Bool-cases,
  sym, ◌==◌, eq_iff, if◌then◌else◌,
}
use mathlib.Core.Path.{subst}
use mathlib.Core.Bool.{true≢false}
use gpg_signing_service.Common.Result.{returns}
use gpg_signing_service.Dict
use gpg_signing_service.Keys.{KeyData, StoredKey, StoredX509Key, AnyStoredKey, pgp, x509}
use gpg_signing_service.Keys.Format.{IsHexUpper}
use gpg_signing_service.Keys.Schema.{parse_any_stored_key, data_of, is_stored_key}
use gpg_signing_service.Keys.Schema.Parsed.{parse_pgp}
use gpg_signing_service.Keys.Schema.Stored.{or_text_empty}
use gpg_signing_service.KeyStorage.{storage_key}
use gpg_signing_service.KeyStorage.Contract.{storage_key-injective}
use gpg_signing_service.KeyCache
use gpg_signing_service.KeyCache.{DecryptedKeyCache}
use gpg_signing_service.Signing.Cached.{Holds, Reflects}
use gpg_signing_service.Service.{Backend, World}
use gpg_signing_service.KeyRoutes.Cases.{id_of, with_key, without_key}

module _ (B : Backend) (passphrase : String) where
  open B use {key_storage, openpgp, zod}

  abbrev pub Cache : Type 0
  Cache = DecryptedKeyCache openpgp.PrivateKey

  -- Every PGP key is stored under its own key id, and the cache reflects it.
  abbrev pub Fresh : key_storage.Store → Cache → Type 0
  Fresh keys c =
      (j : String) (d : KeyData) (k : StoredKey)
      → key_storage.get (storage_key j) keys ≡ some d
      → parse_any_stored_key zod d ≡ returns (pgp k)
      → (k.key_id ≡ j) × Reflects openpgp k passphrase c

  pub Reflects-same :
      (k : StoredKey) (c c' : Cache)
      → Dict.get k.key_id c'.cache ≡ Dict.get k.key_id c.cache
      → Reflects openpgp k passphrase c
      → Reflects openpgp k passphrase c'
  Reflects-same k c c' e h = subst (Holds openpgp k passphrase) (sym e) h

  pub Reflects-none :
      (k : StoredKey) (c : Cache)
      → Dict.get k.key_id c.cache ≡ none
      → Reflects openpgp k passphrase c
  Reflects-none k c e = subst (Holds openpgp k passphrase) (sym e) tt

  -- An empty cache is fresh if the keys are stored under their own key ids.
  pub Fresh-empty :
      (keys : key_storage.Store) (c : Cache) → Fresh keys c → Fresh keys (record c { cache = [] })
  unfolding Dict.get
  Fresh-empty keys c fresh j d k e p = let (own, _) = fresh j d k e p in (own, tt)

  -- A key id at which a key is stored and not dropped from the cache has the key as its own.
  get-with_key :
      (key : AnyStoredKey) (w : World B) (j : String)
      → key_storage.get (storage_key j) (with_key B key w).keys
        ≡ (if id_of B key == j then some (data_of key) else key_storage.get (storage_key j) w.keys)
  get-with_key key w j =
      key_storage.get-put (storage_key (id_of B key)) (storage_key j) (data_of key) w.keys
      ∙ rw (storage_key-injective (id_of B key) j) refl

  get-without_key :
      (id : String) (w : World B) (j : String)
      → key_storage.get (storage_key j) (without_key B id w).keys
        ≡ (if id == j then none else key_storage.get (storage_key j) w.keys)
  get-without_key id w j =
      key_storage.get-delete (storage_key id) (storage_key j) w.keys
      ∙ rw (storage_key-injective id j) refl

  pub same_some :
      {A : Type 0} (b : Bool) (x : Option A) (a d : A)
      → b ≡ true
      → (if b then some a else x) ≡ some d
      → a ≡ d
  same_some b x a d h e = ground (arith, h, e)

  other_some :
      {A : Type 0} (b : Bool) (x : Option A) (a d : A)
      → b ≡ false
      → (if b then some a else x) ≡ some d
      → x ≡ some d
  other_some b x a d h e = ground (arith, h, e)

  -- With the entry dropped, the cache is as fresh as it was for the other key ids.
  Reflects-invalidated :
      (k : StoredKey) (c : Cache) (id : String)
      → Reflects openpgp k passphrase c
      → Reflects openpgp k passphrase (KeyCache.invalidate openpgp.PrivateKey id c)
  unfolding KeyCache.invalidate
  Reflects-invalidated k c id h = elim (Bool-cases (id == k.key_id)) [
    | inl same ↦
        Reflects-none k (KeyCache.invalidate openpgp.PrivateKey id c)
          (Dict.get-delete id k.key_id c.cache ∙ rw same refl)
    | inr other ↦
        Reflects-same k c (KeyCache.invalidate openpgp.PrivateKey id c)
          (Dict.get-delete id k.key_id c.cache ∙ rw other refl) h
  ]

  -- A stored PGP key whose entry is dropped from the cache.
  pub Fresh-with_pgp :
      (key : StoredKey) (w : World B)
      → IsHexUpper 16 key.key_id
      → Fresh w.keys w.cache
      → Fresh
          (with_key B (pgp key) w).keys
          (KeyCache.invalidate openpgp.PrivateKey key.key_id w.cache)
  unfolding KeyCache.invalidate
  Fresh-with_pgp key w v fresh j d k e p = elim (Bool-cases (id_of B (pgp key) == j)) [
    | inr other ↦
        let (own, h) =
          fresh j d k
            (other_some (id_of B (pgp key) == j) _ (data_of (pgp key)) d other
              (sym (get-with_key (pgp key) w j) ∙ e))
            p in
        (own, Reflects-invalidated k w.cache key.key_id h)
    | inl same ↦
        let data_same : data_of (pgp key) ≡ d =
          same_some (id_of B (pgp key) == j) _ (data_of (pgp key)) d same
            (sym (get-with_key (pgp key) w j) ∙ e) in
        let (made, _) = parse_pgp zod d k p in
        let own : k.key_id ≡ key.key_id =
          rw (made, sym data_same, or_text_empty key.key_id) v.upper in
        let at_j : key.key_id ≡ j =
          sym (or_text_empty key.key_id) ∙ ((eq_iff (id_of B (pgp key)) j).0 same) in
        (
          own ∙ at_j,
          Reflects-none k (KeyCache.invalidate openpgp.PrivateKey key.key_id w.cache) (
              Dict.get-delete key.key_id k.key_id w.cache.cache
              ∙ rw own (ground (arith, eq_iff key.key_id key.key_id))),
        )
  ]

  -- A stored X.509 key, for which the cache is not used.
  pub Fresh-with_x509 :
      (key : StoredX509Key) (w : World B)
      → Fresh w.keys w.cache
      → Fresh (with_key B (x509 key) w).keys w.cache
  unfolding is_stored_key
  Fresh-with_x509 key w fresh j d k e p = elim (Bool-cases (id_of B (x509 key) == j)) [
    | inr other ↦
        fresh j d k
          (other_some (id_of B (x509 key) == j) _ (data_of (x509 key)) d other
            (sym (get-with_key (x509 key) w j) ∙ e))
          p
    | inl same ↦
        let data_same : data_of (x509 key) ≡ d =
          same_some (id_of B (x509 key) == j) _ (data_of (x509 key)) d same
            (sym (get-with_key (x509 key) w j) ∙ e) in
        let (_, good) = parse_pgp zod d k p in
        absurd (true≢false (sym (subst (λ x. is_stored_key zod x ≡ true) (sym data_same) good)))
  ]

  still_stored :
      (id : String) (w : World B) (j : String) (d : KeyData)
      → key_storage.get (storage_key j) (without_key B id w).keys ≡ some d
      → key_storage.get (storage_key j) w.keys ≡ some d
  still_stored id w j d e = ground (arith, get-without_key id w j, e)

  pub Fresh-without_key :
      (id : String) (w : World B) → Fresh w.keys w.cache → Fresh (without_key B id w).keys w.cache
  Fresh-without_key id w fresh j d k e p = fresh j d k (still_stored id w j d e) p

  pub Fresh-invalidate :
      (id : String) (keys : key_storage.Store) (c : Cache)
      → Fresh keys c
      → Fresh keys (KeyCache.invalidate openpgp.PrivateKey id c)
  Fresh-invalidate id keys c fresh j d k e p =
      let (own, h) = fresh j d k e p in (own, Reflects-invalidated k c id h)
