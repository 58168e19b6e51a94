-- ===== src/KeyStorage/Listing.antt =====
-- The listing and the count of the key storage agree with the keys that it serves.
use text.Mathlib.TextPositions.{eq_refl}
use gpg_signing_service.Common.{
  suc, String, ◌≡◌, refl, ap, Bool, true, false, Option, none, some, List, [], ◌∷◌, map, or_text,
  length, ◌==◌, eq_iff, arith, starts_with, starts_with_append, starts_with-append, any, truthy,
  truthy?, Bool-cases, inl, inr, Option-cases, ◌∙◌, sym, is_some,
}
use gpg_signing_service.Http.{ok}
use gpg_signing_service.Storage.{Storage}
use gpg_signing_service.Dict
use gpg_signing_service.Dict.{Dict}
use gpg_signing_service.Keys.{KeyData}
use gpg_signing_service.KeyStorage.{
  Body, keys, health, reply, Request, storage_key, fetch, list_keys, health_check, KeyListItem,
  list_item,
}
use gpg_signing_service.KeyStorage.Contract.{
  Change, nothing, store, remove, change, change_store, change_delete, stored_at, stored_at-fetch,
  is_storable, apply,
}

-- Every key stands under its own identifier: the invariant that makes the listing meaningful.
abbrev pub IsUnder : String → Option KeyData → Type 0
IsUnder j none = Unit
IsUnder j (some k) = k.key_id ≡ some j

abbrev pub IsConsistent : (S : Storage KeyData) → S.Store → Type 0
IsConsistent S s = (j : String) → IsUnder j (stored_at S s s j)

id_of_under :
    (j : String) (o : Option KeyData) (k : KeyData) → IsUnder j o → o ≡ some k → k.key_id ≡ some j
id_of_under j none k u e = absurd (cc)
id_of_under j (some x) k u e = ground arith

key_id_of_truthy : (o : Option String) → truthy? o ≡ true → o ≡ some (or_text o "")
key_id_of_truthy none h = cc
key_id_of_truthy (some i) h = ground arith

-- A change stores a key under its own identifier only.
abbrev IsProper : Change → Type 0
IsProper nothing = Unit
IsProper (store i k) = k.key_id ≡ some i
IsProper (remove i) = Unit

change_store-IsProper : (k : KeyData) → IsProper (change_store k)
unfolding change_store
change_store-IsProper k = elim (Bool-cases (is_storable k)) [
  | inl storable ↦ rw storable (key_id_of_truthy k.key_id (ground arith))
  | inr other ↦ rw other tt
]

change_delete-IsProper : (i : String) → IsProper (change_delete i)
unfolding change_delete
change_delete-IsProper i = elim (Bool-cases (truthy i)) [ inl t ↦ rw t tt | inr f ↦ rw f tt ]

change-IsProper : (r : Request) → IsProper (change r)
change-IsProper r =
    ground (arith, change_store-IsProper r.payload, change_delete-IsProper (or_text r.key_id ""))

apply-IsUnder :
    (c : Change) (m : String → Option KeyData) (j : String)
    → IsProper c
    → IsUnder j (m j)
    → IsUnder j (apply c m j)
apply-IsUnder nothing m j p h = h
apply-IsUnder (store i x) m j p h = elim (Bool-cases (i == j)) [
  | inl same ↦ rw same (ground (arith, same, eq_iff i j))
  | inr other ↦ rw other h
]
apply-IsUnder (remove i) m j p h = elim (Bool-cases (i == j)) [
  | inl same ↦ rw same tt
  | inr other ↦ rw other h
]

-- Whatever the request, every stored key keeps standing under its own identifier.
pub fetch-IsConsistent :
    (S : Storage KeyData) (s : S.Store) (r : Request)
    → IsConsistent S s
    → IsConsistent S (fetch S r s).1
fetch-IsConsistent S s r h j =
    rw (stored_at-fetch S s r j)
      (apply-IsUnder (change r) (stored_at S s s) j (change-IsProper r) (h j))

abbrev pub is_named : String → KeyData → Bool
is_named j k = elim k.key_id [ none ↦ false | some i ↦ i == j ]

abbrev pub names : String → KeyListItem → Bool
names j item = elim item.key_id [ none ↦ false | some i ↦ i == j ]

any-map-list_item :
    (j : String) (m : Dict KeyData)
    → any (names j) (map (λ entry. list_item entry.1) m) ≡ Dict.any_value (is_named j) m
any-map-list_item j [] = refl
any-map-list_item j ((i, k) ∷ m) = rw (any-map-list_item j m)

length-map-list_item : (m : Dict KeyData) → length (map (λ entry. list_item entry.1) m) ≡ length m
length-map-list_item [] = refl
length-map-list_item (e ∷ m) = ap suc (length-map-list_item m)

abbrev items_of : Body → List KeyListItem
items_of (keys items) = items
items_of _ = []

module _ (S : Storage KeyData) (s : S.Store) (consistent : IsConsistent S s) (j : String) where
  open S use {get, list, get-list, list-Distinct}

  listed_of_stored :
      (k : KeyData)
      → stored_at S s s j ≡ some k
      → Dict.any_value (is_named j) (list "key:" s) ≡ true
  listed_of_stored k e =
      Dict.any_value_of_get (is_named j) (storage_key j) k (list "key:" s)
        (get-list "key:" (storage_key j) s ∙ rw (starts_with_append "key:" j) e)
        (rw (id_of_under j (stored_at S s s j) k (consistent j) e) (eq_refl j))

  stored_of_entry :
      (name : String) (k : KeyData)
      → get name s ≡ some k
      → starts_with name "key:" ≡ true
      → is_named j k ≡ true
      → stored_at S s s j ≡ some k
  stored_of_entry name k found prefixed named =
      let (i, shape) = starts_with-append name "key:" prefixed in
      let there : stored_at S s s i ≡ some k = ap (λ n. get n s) (sym shape) ∙ found in
      ground (arith, there, id_of_under i (stored_at S s s i) k (consistent i) there, eq_iff i j)

  stored_of_listed :
      Dict.any_value (is_named j) (list "key:" s) ≡ true
      → (k : KeyData) × (stored_at S s s j ≡ some k)
  stored_of_listed h =
      let (name, k, found, named) =
        Dict.get_of_any_value (is_named j) (list "key:" s) (list-Distinct "key:" s) h in
      (
        k,
        stored_of_entry name k (ground (arith, found, get-list "key:" name s))
            (ground (arith, found, get-list "key:" name s)) named,
      )

  agree : Dict.any_value (is_named j) (list "key:" s) ≡ is_some (stored_at S s s j)
  agree = elim (Option-cases (stored_at S s s j)) [
    | inl missing ↦ elim (Bool-cases (Dict.any_value (is_named j) (list "key:" s))) [
      | inl listed ↦ let (k, there) = stored_of_listed listed in cc
      | inr unlisted ↦ rw (missing, unlisted)
    ]
    | inr (k, there) ↦ rw (there, listed_of_stored k there)
  ]

  -- In a consistent storage the listing names a key id exactly if a key is served under it, and the
  -- health check counts the entries of the listing.
  pub list_keys-names :
      (items : List KeyListItem)
      → list_keys S s ≡ reply ok (keys items)
      → (any (names j) items ≡ is_some (stored_at S s s j))
        × (health_check S s ≡ reply ok (health (length items)))
  unfolding list_keys health_check
  list_keys-names items e =
      let same : map (λ entry. list_item entry.1) (list "key:" s) ≡ items =
        ap (λ r. items_of r.body) e in
      (
        rw (← same) (any-map-list_item j (list "key:" s) ∙ agree),
        rw (← same, length-map-list_item (list "key:" s)),
      )
