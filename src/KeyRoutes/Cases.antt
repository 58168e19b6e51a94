-- ===== src/KeyRoutes/Cases.antt =====
-- How an upload and a deletion can end: with an error, after which the keys and the cache are as before, with an error
-- after the keys have changed, because the reply of the storage was lost, or with a success.
use gpg_signing_service.Common.{
  String, ◌≡◌, refl, true, false, none, inl, inr, ◌⊎◌, Bool-cases, Option-cases, ap, or_text,
  truthy, is_some, sym, ◌+s◌, ◌∙◌, some,
}
use mathlib.Core.Bool.{true≢false}
use gpg_signing_service.Common.Result.{Result, returns, throws, Result-cases}
use gpg_signing_service.Http.{ok, bad_request, created}
use gpg_signing_service.Keys.{StoredKey, AnyStoredKey, pgp, x509}
use gpg_signing_service.Keys.Schema.{data_of}
use gpg_signing_service.Keys.Schema.Stored.{or_text_empty}
use gpg_signing_service.KeyStorage
use gpg_signing_service.KeyStorage.{storage_key, has_key_material, reply}
use gpg_signing_service.KeyStorage.Contract.{is_storable}
use gpg_signing_service.Signing.{ParsedKeyInfo}
use gpg_signing_service.X509.{X509KeyInfo, parse_and_validate_x509_key}
use gpg_signing_service.Errors.{Outcome}
use gpg_signing_service.Audit.{failed, failed_x509}
use gpg_signing_service.Service.{Backend, World, fetch_key_storage}
use gpg_signing_service.KeyRoutes.{
  KeyUpload, X509KeyUpload, Course, KeyResponse, call_storage, store_request, store, prepare,
  upload_caught, upload_stored, upload_key, x509_of, IsHeard, upload_x509_stored, upload_x509_key,
}
use gpg_signing_service.KeyRoutes.Existing.{delete_request, deleted_or_caught, delete_key}

-- A call of the key storage that rejects with a message, after the storage has served it.
pub record IsLost (course : Course) (message : String) : Type 0 where
  pub fails : course.call_fails ≡ some message
  pub lost : course.reached ≡ true

pub not-IsLost : {course : Course} {m : String} → IsHeard course → IsLost course m → ⊥
not-IsLost (inl e) l = true≢false (sym (ap is_some (sym e ∙ l.fails)))
not-IsLost (inr e) l = true≢false (sym l.lost ∙ e)

module _ (B : Backend) where
  open B use {key_storage}

  -- The key id that the JSON of a key has.
  abbrev pub id_of : AnyStoredKey → String
  id_of key = or_text (data_of key).key_id ""

  abbrev pub with_key : AnyStoredKey → World B → World B
  with_key key w = record w {
    keys = key_storage.put (storage_key (id_of key)) (data_of key) w.keys;
  }

  abbrev pub without_key : String → World B → World B
  without_key key_id w = record w { keys = (key_storage.delete (storage_key key_id) w.keys).0 }

  store_refused :
      (key : AnyStoredKey) (s : key_storage.Store)
      → is_storable (data_of key) ≡ false
      → fetch_key_storage B (store_request key) s
        ≡ (reply bad_request (KeyStorage.error "Missing required fields"), s)
  unfolding fetch_key_storage KeyStorage.fetch KeyStorage.store_key
  store_refused key s bad = elim (Bool-cases (has_key_material (data_of key))) [
    | inl h ↦ rw (h, rw h at bad, KeyStorage.store_key) refl
    | inr h ↦ rw (h, KeyStorage.store_key) refl
  ]

  store_accepted :
      (key : AnyStoredKey) (s : key_storage.Store)
      → is_storable (data_of key) ≡ true
      → fetch_key_storage B (store_request key) s ≡ (
        reply created (KeyStorage.stored (data_of key).key_id (data_of key).fingerprint),
        key_storage.put (storage_key (id_of key)) (data_of key) s,
      )
  unfolding fetch_key_storage KeyStorage.fetch KeyStorage.store_key
  store_accepted key s good = elim (Bool-cases (has_key_material (data_of key))) [
    | inl h ↦ rw (h, rw h at good, KeyStorage.store_key) refl
    | inr h ↦ absurd (true≢false (sym (rw h at good)))
  ]

  pub store_storable :
      (course : Course) (key : AnyStoredKey) (w : World B)
      → course.call_fails ≡ none
      → is_storable (data_of key) ≡ true
      → store B course key w ≡ (returns tt, with_key key w)
  unfolding store call_storage
  store_storable course key w e good =
      rw (e, store, call_storage, store_accepted key w.keys good) refl

  pub store-cases :
      (course : Course) (key : AnyStoredKey) (w : World B)
      → ((m : String) × (store B course key w ≡ (throws m, w)))
        ⊎ (((m : String) × (IsLost course m × (store B course key w ≡ (throws m, with_key key w))))
            ⊎ (store B course key w ≡ (returns tt, with_key key w)))
  unfolding store call_storage
  store-cases course key w = elim (Option-cases course.call_fails) [
    | inr (m, e) ↦ elim (Bool-cases course.reached) [
      | inr unreached ↦ inl (m, rw (e, unreached, store, call_storage) refl)
      | inl lost ↦ elim (Bool-cases (is_storable (data_of key))) [
        | inr bad ↦ inl (m, rw (e, lost, store, call_storage, store_refused key w.keys bad) refl)
        | inl good ↦ inr (
            inl (
              m,
              (
                record { fails = e; lost = lost },
                rw (e, lost, store, call_storage, store_accepted key w.keys good) refl,
              ),
            ))
      ]
    ]
    | inl e ↦ elim (Bool-cases (is_storable (data_of key))) [
      | inr bad ↦ inl (
        "Missing required fields",
        rw (e, store, call_storage, store_refused key w.keys bad) refl,
      )
      | inl good ↦ inr (inr (store_storable course key w e good))
    ]
  ]

  delete_refused :
      (key_id : String) (s : key_storage.Store)
      → truthy key_id ≡ false
      → fetch_key_storage B (delete_request key_id) s
        ≡ (reply bad_request (KeyStorage.error "Key ID required"), s)
  unfolding fetch_key_storage KeyStorage.fetch KeyStorage.delete_key
  delete_refused key_id s empty = rw (or_text_empty key_id, KeyStorage.delete_key, empty) refl

  delete_asked :
      (key_id : String) (s : key_storage.Store)
      → truthy key_id ≡ true
      → fetch_key_storage B (delete_request key_id) s ≡ (
        reply ok (KeyStorage.deletion (is_some (key_storage.get (storage_key key_id) s))),
        (key_storage.delete (storage_key key_id) s).0,
      )
  unfolding fetch_key_storage KeyStorage.fetch KeyStorage.delete_key
  delete_asked key_id s given =
      rw
        (
          or_text_empty key_id,
          KeyStorage.delete_key,
          given,
          sym (key_storage.deleted (storage_key key_id) s),
        )
        refl

  -- What an upload does to the world that the storage leaves.
  abbrev stored_upload :
      (request_id : String) (course : Course) (key_id : String) (info : ParsedKeyInfo)
      → Result (Unit {0}) × World B
      → Outcome KeyResponse × World B
  stored_upload request_id course key_id info (result, w) =
      upload_stored B request_id course key_id info result w

  -- An upload of a PGP key is caught with nothing changed but the audit log, or caught after the key was stored, if the
  -- reply was lost, or it has stored the key and said so.
  pub upload_key-cases :
      (passphrase request_id : String) (course : Course) (body : KeyUpload) (w : World B)
      → ((m : String) × (upload_key B passphrase request_id course body w
            ≡ upload_caught B request_id course failed m w))
        ⊎ ((key : StoredKey) × ((info : ParsedKeyInfo) × ((prepare B passphrase course body
                  ≡ returns (key, info))
                × (((m : String) × (IsLost course m
                        × (upload_key B passphrase request_id course body w
                            ≡ upload_caught B request_id course failed m (with_key (pgp key) w))))
                    ⊎ (upload_key B passphrase request_id course body w
                        ≡ upload_stored B request_id course body.key_id info
                            (returns tt)
                            (with_key (pgp key) w))))))
  unfolding upload_key upload_stored
  upload_key-cases passphrase request_id course body w =
      elim (Result-cases (prepare B passphrase course body)) [
        | inr (m, e) ↦ inl (m, rw (e, upload_key) refl)
        | inl ((key, info), e) ↦ elim (store-cases course (pgp key) w) [
          | inl (m, s) ↦
              inl (m, rw (e, upload_key) (ap (stored_upload request_id course body.key_id info) s))
          | inr (inl (m, (lost, s))) ↦ inr (
            key,
            (
              info,
              (
                e,
                inl (
                  m,
                  (
                    lost,
                    rw (e, upload_key) (ap (stored_upload request_id course body.key_id info) s),
                  ),
                ),
              ),
            ),
          )
          | inr (inr s) ↦ inr (
            key,
            (
              info,
              (
                e,
                inr (rw (e, upload_key) (ap (stored_upload request_id course body.key_id info) s)),
              ),
            ),
          )
        ]
      ]

  abbrev stored_x509_upload :
      (request_id : String) (course : Course) (key_id : String) (info : X509KeyInfo)
      → Result (Unit {0}) × World B
      → Outcome KeyResponse × World B
  stored_x509_upload request_id course key_id info (result, w) =
      upload_x509_stored B request_id course key_id info result w

  pub upload_x509_key-cases :
      (passphrase request_id : String) (course : Course) (body : X509KeyUpload) (w : World B)
      → ((m : String) × (upload_x509_key B passphrase request_id course body w
            ≡ upload_caught B request_id course failed_x509 m w))
        ⊎ ((info : X509KeyInfo) × (((m : String) × (IsLost course m
                  × (upload_x509_key B passphrase request_id course body w
                      ≡ upload_caught B request_id course failed_x509 m
                          (with_key (x509 (x509_of course body info)) w))))
              ⊎ (upload_x509_key B passphrase request_id course body w
                  ≡ upload_x509_stored B request_id course body.key_id info
                      (returns tt)
                      (with_key (x509 (x509_of course body info)) w))))
  unfolding upload_x509_key upload_x509_stored
  upload_x509_key-cases passphrase request_id course body w =
      elim (Result-cases (
        parse_and_validate_x509_key B.pki B.zod.shown body.private_key_pem body.certificate_pem
          passphrase)) [
            | inr (m, e) ↦ inl (m, rw (e, upload_x509_key) refl)
            | inl (info, e) ↦ elim (store-cases course (x509 (x509_of course body info)) w) [
              | inl (m, s) ↦ inl (
                m,
                rw (e, upload_x509_key)
                    (ap (stored_x509_upload request_id course body.key_id info) s),
              )
              | inr (inl (m, (lost, s))) ↦ inr (
                info,
                inl (
                  m,
                  (
                    lost,
                    rw (e, upload_x509_key)
                        (ap (stored_x509_upload request_id course body.key_id info) s),
                  ),
                ),
              )
              | inr (inr s) ↦ inr (
                info,
                inr (
                    rw (e, upload_x509_key)
                      (ap (stored_x509_upload request_id course body.key_id info) s)),
              )
            ]
          ]

  pub delete_key-answered :
      (request_id : String) (course : Course) (key_id : String) (w : World B)
      → course.call_fails ≡ none
      → truthy key_id ≡ true
      → delete_key B request_id course key_id w
        ≡ deleted_or_caught B request_id course key_id
            (returns (KeyStorage.deletion (is_some (key_storage.get (storage_key key_id) w.keys))))
            (without_key key_id w)
  unfolding delete_key call_storage
  delete_key-answered request_id course key_id w e given =
      rw (e, delete_key, call_storage, delete_asked key_id w.keys given) refl

  -- A deletion is caught with nothing changed but the audit log, or after the key was deleted, or the storage has answered.
  pub delete_key-cases :
      (request_id : String) (course : Course) (key_id : String) (w : World B)
      → ((m : String) × (delete_key B request_id course key_id w
            ≡ deleted_or_caught B request_id course key_id (throws m) w))
        ⊎ (((m : String) × (delete_key B request_id course key_id w
                ≡ deleted_or_caught B request_id course key_id (throws m) (without_key key_id w)))
            ⊎ (delete_key B request_id course key_id w
                ≡ deleted_or_caught B request_id course key_id
                    (returns
                      (KeyStorage.deletion (is_some (key_storage.get (storage_key key_id) w.keys))))
                    (without_key key_id w)))
  unfolding delete_key call_storage fetch_key_storage KeyStorage.fetch KeyStorage.delete_key
  delete_key-cases request_id course key_id w = elim (Option-cases course.call_fails) [
    | inr (m, e) ↦ elim (Bool-cases course.reached) [
      | inr unreached ↦ inl (m, rw (e, unreached, delete_key, call_storage) refl)
      | inl lost ↦ elim (Bool-cases (truthy key_id)) [
        | inr empty ↦
            inl (m, rw (e, lost, delete_key, call_storage, delete_refused key_id w.keys empty) refl)
        | inl given ↦
            inr (
              inl
                (m, rw (e, lost, delete_key, call_storage, delete_asked key_id w.keys given) refl))
      ]
    ]
    | inl e ↦ elim (Bool-cases (truthy key_id)) [
      | inr empty ↦ inl (
        "Key storage returned " +s B.zod.shown 400,
        rw (e, delete_key, call_storage, delete_refused key_id w.keys empty) refl,
      )
      | inl given ↦ inr (inr (delete_key-answered request_id course key_id w e given))
    ]
  ]
