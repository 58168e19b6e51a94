-- ===== src/KeyCache/View.antt =====
-- The cache against its contract: for each key id, the key set last, until it expires or is
-- invalidated. An expired entry that still stands in the map cannot be seen.
use gpg_signing_service.Common.{
  ℕ, ◌+◌, ◌≤◌, String, ◌≡◌, refl, ap, Option, none, some, [], ◌∷◌, ltb, leb, if◌then◌else◌, length,
  ◌==◌, eq_iff, arith, Bool-cases, inl, inr, is_some,
}
use gpg_signing_service.Dict
use gpg_signing_service.Dict.{Dict, Distinct}
use gpg_signing_service.KeyCache.{CacheEntry, DecryptedKeyCache, get, set, invalidate, stats, purge}

module _ {K : Type 0} where
  -- The key that an entry shows at a time.
  abbrev pub shown : ℕ → Option (CacheEntry K) → Option K
  shown now none = none
  shown now (some entry) = if ltb entry.expires_at now then none else some entry.key

  -- The contract's state: what the cache shows of a key id at a time.
  abbrev pub view : DecryptedKeyCache K → ℕ → String → Option K
  view c now key_id = shown now (Dict.get key_id c.cache)

  -- `get` answers what the cache shows, and changes nothing that it will show.
  pub get-view :
      (c : DecryptedKeyCache K) (key_id : String) (now later : ℕ) (j : String)
      → now ≤ later
      → ((get K key_id now c).0 ≡ view c now key_id)
        × (view (get K key_id now c).1 later j ≡ view c later j)
  unfolding get
  get-view c key_id now later j h = ground (
    arith,
    Dict.get-delete key_id j c.cache,
    eq_iff key_id j,
    ap (λ (i : String). Dict.get i c.cache) {x = key_id} {y = j},
  )

  -- A key that is set is shown for the time to live, and other key ids are not touched.
  pub set-view :
      (c : DecryptedKeyCache K) (key_id : String) (key : K) (now later : ℕ) (j : String)
      → view (set K key_id key now c) later j ≡ (
          if key_id == j
          then (if leb later (now + c.ttl) then some key else none)
          else view c later j)
  unfolding set
  set-view c key_id key now later j =
      ground (arith, Dict.get-set key_id j (record { key = key; expires_at = now + c.ttl }) c.cache)

  -- An invalidated key is not shown at any time, and other key ids are not touched.
  pub invalidate-view :
      (c : DecryptedKeyCache K) (key_id : String) (later : ℕ) (j : String)
      → view (invalidate K key_id c) later j ≡ (if key_id == j then none else view c later j)
  unfolding invalidate
  invalidate-view c key_id later j = ground (arith, Dict.get-delete key_id j c.cache)

  -- What the loop leaves of an entry `o`, if the entries still to come hold `seen` for its key.
  abbrev left : ℕ → Option (CacheEntry K) → Option (CacheEntry K) → Option (CacheEntry K)
  left now none o = o
  left now (some e) o = if ltb e.expires_at now then none else o

  get-purge :
      (now : ℕ) (es c : Dict (CacheEntry K)) (j : String)
      → Distinct es
      → Dict.get j (purge K now es c) ≡ left now (Dict.get j es) (Dict.get j c)
  unfolding purge Dict.get
  get-purge now [] c j d = refl
  get-purge now ((i, e) ∷ es) c j (fresh, d) = elim (Bool-cases (ltb e.expires_at now)) [
    | inl old ↦ rw old (
        ground (
          arith,
          get-purge now es (Dict.delete i c) j d,
          Dict.get-delete i j c,
          eq_iff i j,
          ap (λ (k : String). Dict.get k es) {x = i} {y = j},
        ))
    | inr kept ↦ rw kept (
        ground (
          arith,
          get-purge now es c j d,
          eq_iff i j,
          ap (λ (k : String). Dict.get k es) {x = i} {y = j},
        ))
  ]

  -- `stats` drops exactly the expired entries: what the cache shows stays the same, and an entry
  -- that it keeps is one that the cache shows.
  pub stats-view :
      (c : DecryptedKeyCache K) (now later : ℕ) (j : String)
      → Distinct c.cache
      → now ≤ later
      → (view (stats K now c).1 later j ≡ view c later j)
        × (is_some (Dict.get j (stats K now c).1.cache) ≡ is_some (view c now j))
        × ((stats K now c).0.0 ≡ length (stats K now c).1.cache)
  unfolding stats
  stats-view c now later j d h = ground (arith, get-purge now c.cache c.cache j d)
