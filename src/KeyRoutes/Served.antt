-- ===== src/KeyRoutes/Served.antt =====
-- An upload of a well-formed PGP key succeeds, and the key is served right after it.
use gpg_signing_service.Common.{
  ℕ, ◌≤◌, String, ◌≡◌, refl, ◌∙◌, true, none, some, arith, ap, truthy, utf16_length, leb, eq_iff,
}
use gpg_signing_service.Common.Result.{Result, returns}
use gpg_signing_service.Http.{created}
use gpg_signing_service.Keys.{StoredKey, pgp, is_hex_of}
use gpg_signing_service.Keys.Format.{IsHexUpper, create_key_id-IsHexUpper}
use gpg_signing_service.Keys.Schema.{data_of, is_armored}
use gpg_signing_service.Keys.Schema.Armor.{create_armored_private_key-is_armored}
use gpg_signing_service.Keys.Schema.Stored.{IsConforming, parse-data_of, or_text_empty}
use gpg_signing_service.KeyStorage.{storage_key}
use gpg_signing_service.KeyStorage.Contract.{is_storable}
use gpg_signing_service.Signing.{ParsedKeyInfo, parse_and_validate_key}
use gpg_signing_service.Signing.Validated.{parse_and_validate_key-IsFit}
use gpg_signing_service.Errors.{success}
use gpg_signing_service.Service.{Backend, World, stored_key, fetch_key}
use gpg_signing_service.Service.Lookup.{looked_up, looked_up_given, fetch_key-some}
use gpg_signing_service.KeyRoutes.{KeyUpload, Course, prepare, upload_stored, upload_key}
use gpg_signing_service.KeyRoutes.Cases.{with_key, store_storable}
use gpg_signing_service.KeyRoutes.Upload.{uploaded_key, answer_of}

hex-truthy : (n : ℕ) (s : String) → 1 ≤ n → is_hex_of n s ≡ true → truthy s ≡ true
hex-truthy n String.[] p h = absurd (ground arith)
hex-truthy n (String.◌∷◌ c s) p h = refl

long-truthy : (s : String) → 350 ≤ utf16_length s → truthy s ≡ true
unfolding utf16_length
long-truthy String.[] h = absurd (ground arith)
long-truthy (String.◌∷◌ c s) h = refl

module _ (B : Backend) (passphrase request_id : String) (course : Course) (body : KeyUpload) where
  -- What the schema of the upload has checked, and a time that the schema of stored keys takes.
  pub record IsValidUpload : Type 0 where
    pub armored : is_armored body.armored_private_key ≡ true
    pub long : 350 ≤ utf16_length body.armored_private_key
    pub key_id : IsHexUpper 16 body.key_id
    pub created_at : B.zod.is_datetime course.created_at ≡ true

  module _ (info : ParsedKeyInfo) where
    abbrev pub made : StoredKey
    made = uploaded_key course body (answer_of body.key_id info)

    module _ (v : IsValidUpload)
        (p : parse_and_validate_key B.openpgp B.zod.shown body.armored_private_key passphrase
          ≡ returns info) where
      prepare-made : prepare B passphrase course body ≡ returns (made, info)
      unfolding prepare
      prepare-made =
          let long : leb 350 (utf16_length body.armored_private_key) ≡ true =
            ground (arith, v.long) in
          rw
            (
              p,
              create_armored_private_key-is_armored B.zod.shown body.armored_private_key v.armored,
              long,
              create_key_id-IsHexUpper body.key_id v.key_id,
              prepare,
            )
            refl

      made-IsConforming : IsConforming B.zod made
      made-IsConforming =
          let (fingerprint, algorithm) =
            parse_and_validate_key-IsFit B.openpgp B.zod.shown _ passphrase info p in
          record {
            armored = v.armored;
            long = v.long;
            key_id = v.key_id;
            fingerprint = fingerprint;
            created_at = v.created_at;
            algorithm = algorithm;
          }

      made-is_storable : is_storable (data_of (pgp made)) ≡ true
      made-is_storable =
          rw
            (
              long-truthy body.armored_private_key v.long,
              hex-truthy 16 body.key_id (ground arith) v.key_id.hex,
            )
            refl

      upload_key-made :
          (w : World B)
          → course.call_fails ≡ none
          → upload_key B passphrase request_id course body w
            ≡ upload_stored B request_id course body.key_id info
                (returns tt)
                (with_key B (pgp made) w)
      unfolding upload_key
      upload_key-made w called =
          rw (prepare-made, upload_key)
            (ap
              (λ (x : Result (Unit {0}) × World B).
                upload_stored B request_id course body.key_id info x.0 x.1)
              (store_storable B course (pgp made) w called made-is_storable))

      made-served :
          (w : World B)
          → stored_key B (fetch_key B body.key_id (with_key B (pgp made) w).keys)
            ≡ returns (pgp made)
      unfolding stored_key
      made-served w =
          let given = hex-truthy 16 body.key_id (ground arith) v.key_id.hex in
          let there : B.key_storage.get (storage_key (looked_up body.key_id))
                (with_key B (pgp made) w).keys
              ≡ some (data_of (pgp made)) =
            rw (looked_up_given body.key_id given, or_text_empty body.key_id)
              (B.key_storage.get-put (storage_key body.key_id) (storage_key body.key_id)
                  (data_of (pgp made)) w.keys
                ∙ ground (arith, eq_iff (storage_key body.key_id) (storage_key body.key_id))) in
          rw
            (fetch_key-some B body.key_id (with_key B (pgp made) w).keys (data_of (pgp made)) there)
            (parse-data_of B.zod made made-IsConforming)

  -- If the body has passed the schema with an armored key of at least 350 units, `parseAndValidateKey` accepts the key and
  -- the key storage answers, then the upload answers 201, and the key is served right after it as it was uploaded: it passes
  -- the schema of stored keys when it is read.
  pub upload_key-served :
      (info : ParsedKeyInfo) (w : World B)
      → IsValidUpload
      → parse_and_validate_key B.openpgp B.zod.shown body.armored_private_key passphrase
        ≡ returns info
      → course.call_fails ≡ none
      → ((upload_key B passphrase request_id course body w).0
          ≡ success created (answer_of body.key_id info))
        × (stored_key B
              (fetch_key B body.key_id (upload_key B passphrase request_id course body w).1.keys)
            ≡ returns (pgp (made info)))
  unfolding upload_stored
  upload_key-served info w v p called =
      rw (upload_key-made info v p w called) (refl, made-served info v p w)
