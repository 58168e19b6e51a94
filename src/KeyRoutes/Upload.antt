-- ===== src/KeyRoutes/Upload.antt =====
-- What an upload does to the service, by its answer, and that it succeeds.
use gpg_signing_service.Common.{String, ◌≡◌, refl, true, none, some, inl, inr, ap, sym}
use gpg_signing_service.Common.Result.{returns, Result-cases, throws_returns, returns-injective}
use gpg_signing_service.Keys.{StoredKey, StoredX509Key, pgp, x509, create_armored_private_key}
use gpg_signing_service.Keys.Format.{IsHexUpper, create_key_id-IsHexUpper}
use gpg_signing_service.Keys.Schema.Armor.{create_armored_private_key_same}
use gpg_signing_service.KeyCache
use gpg_signing_service.Signing.{ParsedKeyInfo, parse_and_validate_key}
use gpg_signing_service.Errors.{Outcome, success, failure}
use gpg_signing_service.Audit.{key_upload, uploaded, uploaded_x509, failed, failed_x509}
use gpg_signing_service.Service.{Backend, World}
use gpg_signing_service.KeyRoutes.{
  KeyUpload, X509KeyUpload, Course, KeyResponse, admin_entry, upload_failed, prepare, logged,
  upload_caught, upload_x509_stored, upload_x509_key, IsHeard,
}
use gpg_signing_service.KeyRoutes.Cases.{not-IsLost, with_key, upload_x509_key-cases}

-- The key that an upload stores, from its body and its answer.
abbrev pub uploaded_key : Course → KeyUpload → KeyResponse → StoredKey
uploaded_key course body answer = record {
  armored_private_key = body.armored_private_key;
  key_id = body.key_id;
  fingerprint = answer.fingerprint;
  created_at = course.created_at;
  algorithm = answer.algorithm;
}

abbrev pub answer_of : String → ParsedKeyInfo → KeyResponse
answer_of key_id info = record {
  key_id = key_id;
  fingerprint = info.fingerprint;
  algorithm = info.algorithm;
  owner = info.user_id;
}

module _ (B : Backend) (passphrase request_id : String) (course : Course) where
  -- The service after an upload with the answer.
  abbrev pub after_upload : KeyUpload → Outcome KeyResponse → World B → World B
  after_upload body (failure status message code) w =
      logged B course (upload_failed request_id (failed message)) w
  after_upload body (success status answer) w =
      let key = uploaded_key course body answer in
      logged B course
        (admin_entry request_id key_upload answer.key_id true none
          (some (uploaded answer.fingerprint answer.algorithm answer.owner)))
        (record (with_key B (pgp key) w) {
          cache = KeyCache.invalidate B.openpgp.PrivateKey key.key_id w.cache;
        })

  pub prepare-uploaded_key :
      (body : KeyUpload) (key : StoredKey) (info : ParsedKeyInfo)
      → IsHexUpper 16 body.key_id
      → prepare B passphrase course body ≡ returns (key, info)
      → key ≡ uploaded_key course body (answer_of body.key_id info)
  unfolding prepare
  prepare-uploaded_key body key info v e =
      elim (Result-cases
        (parse_and_validate_key B.openpgp B.zod.shown body.armored_private_key passphrase)) [
          | inr (m, p) ↦ absurd (throws_returns (rw (p, prepare) at e))
          | inl (found, p) ↦
              elim (Result-cases
                (create_armored_private_key B.zod.shown body.armored_private_key)) [
                  | inr (m, c) ↦ absurd (throws_returns (rw (p, c, prepare) at e))
                  | inl (armored, c) ↦
                      let made =
                        returns-injective
                          (rw (p, c, create_key_id-IsHexUpper body.key_id v, prepare) at e) in
                      rw
                        (
                          sym (ap (λ (x : StoredKey × ParsedKeyInfo). x.1) made),
                          create_armored_private_key_same B.zod.shown body.armored_private_key
                              armored c,
                        )
                        (sym (ap (λ (x : StoredKey × ParsedKeyInfo). x.0) made))
                ]
        ]

  abbrev pub uploaded_x509_key : X509KeyUpload → KeyResponse → StoredX509Key
  uploaded_x509_key body answer = record {
    key_id = answer.key_id;
    private_key_pem = body.private_key_pem;
    certificate_pem = body.certificate_pem;
    chain_pem = body.chain_pem;
    fingerprint = answer.fingerprint;
    created_at = course.created_at;
    algorithm = answer.algorithm;
  }

  abbrev pub after_x509_upload : X509KeyUpload → Outcome KeyResponse → World B → World B
  after_x509_upload body (failure status message code) w =
      logged B course (upload_failed request_id (failed_x509 message)) w
  after_x509_upload body (success status answer) w =
      logged B course
        (admin_entry request_id key_upload answer.key_id true none
          (some (uploaded_x509 answer.fingerprint answer.algorithm answer.owner)))
        (with_key B (x509 (uploaded_x509_key body answer)) w)

  pub upload_x509_key-after_x509_upload :
      (body : X509KeyUpload) (w : World B)
      → IsHeard course
      → (upload_x509_key B passphrase request_id course body w).1
        ≡ after_x509_upload body (upload_x509_key B passphrase request_id course body w).0 w
  unfolding upload_caught upload_x509_stored
  upload_x509_key-after_x509_upload body w heard =
      elim (upload_x509_key-cases B passphrase request_id course body w) [
        | inl (m, e) ↦ rw e refl
        | inr (info, inl (m, (lost, _))) ↦ absurd (not-IsLost heard lost)
        | inr (info, inr e) ↦ rw e refl
      ]
