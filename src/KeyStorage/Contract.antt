-- ===== src/KeyStorage/Contract.antt =====
-- What each request to the key storage does to the stored keys, and what it answers.
use text.Mathlib.TextLemmas.{append_cancel_left}
use gpg_signing_service.Common.{
  ap, String, ◌≡◌, refl, Bool, true, false, Option, none, some, or_text, truthy, truthy?, ◌==◌,
  ◌&&◌, if◌then◌else◌, arith, eq_iff, is_some, ==_separate,
}
use gpg_signing_service.Http.{ok, created, not_found}
use gpg_signing_service.Storage.{Storage}
use gpg_signing_service.Keys.{KeyData}
use gpg_signing_service.KeyStorage.{
  key, error, stored, deletion, reply, Request, storage_key, has_key_material, get_key, store_key,
  delete_key, fetch,
}

pub storage_key-injective : (i j : String) → (storage_key i == storage_key j) ≡ (i == j)
storage_key-injective i j = ground (
  arith,
  eq_iff i j,
  eq_iff (storage_key i) (storage_key j),
  append_cancel_left "key:" i j,
  ap storage_key {x = i} {y = j},
)

-- The change that a request makes, if any.
pub data Change : Type 0 where
  nothing : Change
  store : String → KeyData → Change
  remove : String → Change

-- A stored body has key material and a key id.
abbrev pub is_storable : KeyData → Bool
is_storable k = has_key_material k && truthy? k.key_id

unfoldable pub change_store : KeyData → Change
change_store k = if is_storable k then store (or_text k.key_id "") k else nothing

unfoldable pub change_delete : String → Change
change_delete i = if truthy i then remove i else nothing

abbrev pub change : Request → Change
change r =
    if r.path == "/store-key"
    then if r.method == "POST" then change_store r.payload else nothing
    else if r.path == "/delete-key"
    then if r.method == "DELETE" then change_delete (or_text r.key_id "") else nothing
    else nothing

-- The abstract storage: a partial function from key ids to keys.
abbrev pub apply : Change → (String → Option KeyData) → String → Option KeyData
apply nothing m j = m j
apply (store i k) m j = if i == j then some k else m j
apply (remove i) m j = if i == j then none else m j

answer-delete_key :
    (S : Storage KeyData) (s : S.Store) (i : String)
    → truthy i ≡ true
    → (delete_key S i s).0 ≡ reply ok (deletion (is_some (S.get (storage_key i) s)))
unfolding delete_key
answer-delete_key S s i h = ground (arith, S.deleted (storage_key i) s)

module _ (S : Storage KeyData) (s : S.Store) where
  open S use {Store, get, get-put, get-delete}

  abbrev pub stored_at : Store → String → Option KeyData
  stored_at t j = get (storage_key j) t

  get-store_key :
      (k : KeyData) (j : String)
      → stored_at (store_key S k s).1 j ≡ apply (change_store k) (stored_at s) j
  unfolding store_key change_store
  get-store_key k j = ground (
    arith,
    get-put (storage_key (or_text k.key_id "")) (storage_key j) k s,
    storage_key-injective (or_text k.key_id "") j,
  )

  get-delete_key :
      (i j : String) → stored_at (delete_key S i s).1 j ≡ apply (change_delete i) (stored_at s) j
  unfolding delete_key change_delete
  get-delete_key i j =
      ground (arith, get-delete (storage_key i) (storage_key j) s, storage_key-injective i j)

  -- Every request changes the stored keys as `change` says: only a POST of a complete key to
  -- /store-key and a DELETE of a named key to /delete-key change anything, at their own key id.
  pub stored_at-fetch :
      (r : Request) (j : String) → stored_at (fetch S r s).1 j ≡ apply (change r) (stored_at s) j
  unfolding fetch
  stored_at-fetch r j = ground (
    arith,
    get-store_key r.payload j,
    get-delete_key (or_text r.key_id "") j,
    ==_separate r.path "/get-key" "/store-key" refl,
    ==_separate r.path "/get-key" "/delete-key" refl,
    ==_separate r.path "/list-keys" "/delete-key" refl,
  )

  -- A key that has been stored is served exactly as it was stored, whatever was there before.
  pub get_key-store_key :
      (k : KeyData)
      → is_storable k ≡ true
      → ((store_key S k s).0 ≡ reply created (stored k.key_id k.fingerprint))
        × (get_key S (or_text k.key_id "") (store_key S k s).1 ≡ reply ok (key k))
  unfolding get_key change_store change_delete
  get_key-store_key k h =
      let i = or_text k.key_id "" in
      let there : stored_at (store_key S k s).1 i ≡ some k =
        ground (arith, get-store_key k i, eq_iff i i) in
      (unfold store_key in ground arith, rw (there, get_key))

  -- Deleting a named key answers whether it was stored, and from then on it is not served; deleting
  -- it a second time answers that nothing was deleted.
  pub get_key-delete_key :
      (i : String)
      → truthy i ≡ true
      → ((delete_key S i s).0 ≡ reply ok (deletion (is_some (stored_at s i))))
        × (get_key S i (delete_key S i s).1 ≡ reply not_found (error "Key not found"))
        × ((delete_key S i (delete_key S i s).1).0 ≡ reply ok (deletion false))
  unfolding get_key change_store change_delete
  get_key-delete_key i h =
      let gone : stored_at (delete_key S i s).1 i ≡ none =
        ground (arith, get-delete_key i i, eq_iff i i) in
      (
        answer-delete_key S s i h,
        rw (gone, get_key),
        rw (answer-delete_key S (delete_key S i s).1 i h, gone),
      )
