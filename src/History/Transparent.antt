-- ===== src/History/Transparent.antt =====
-- The cache of decrypted keys cannot be seen in the answers of `POST /sign`.
use gpg_signing_service.Common.{
  String, ◌≡◌, refl, ◌∙◌, Bool, true, false, none, some, [], inl, inr, Bool-cases, ap, sym, ◌==◌,
  eq_iff, is_some,
}
use mathlib.Core.Path.{subst}
use mathlib.Core.Bool.{true≢false}
use gpg_signing_service.Common.Result.{Result, returns, ◌>>=◌, returns-injective}
use gpg_signing_service.Keys.{KeyData, StoredKey, AnyStoredKey, pgp, x509}
use gpg_signing_service.Keys.Format.{IsHexUpper}
use gpg_signing_service.Keys.Schema.{parse_any_stored_key}
use gpg_signing_service.Keys.Schema.Parsed.{pgp-injective}
use gpg_signing_service.KeyStorage
use gpg_signing_service.KeyStorage.{storage_key}
use gpg_signing_service.Signing.{SigningResult, open_key, sign_with, sign_commit_data}
use gpg_signing_service.Signing.Cached.{Reflects, sign_commit_data-open_key}
use gpg_signing_service.Signing.Others.{get-sign_commit_data}
use gpg_signing_service.X509.{sign_commit_data_x509}
use gpg_signing_service.Service.{Backend, World, stored_key, fetch_key}
use gpg_signing_service.Service.Lookup.{looked_up, stored_key-stored}
use gpg_signing_service.SignRequest.{Settings, key_id_param}
use gpg_signing_service.SignRequest
use gpg_signing_service.Sign.{signature_of, sign_with_key, sign}
use gpg_signing_service.Sign.Steady.{Good, sign-Steady}
use gpg_signing_service.KeyRoutes
use gpg_signing_service.KeyRoutes.{
  IsHeard, upload_caught, upload_stored, upload_x509_stored, upload_key, upload_x509_key, x509_of,
  KeyUpload, X509KeyUpload,
}
use gpg_signing_service.KeyRoutes.Existing.{delete_key, deleted_or_caught}
use gpg_signing_service.KeyRoutes.Cases.{
  not-IsLost, without_key, upload_key-cases, upload_x509_key-cases, delete_key-cases,
}
use gpg_signing_service.KeyRoutes.Upload.{prepare-uploaded_key}
use gpg_signing_service.History.{
  Step, signing, uploading, uploading_x509, deleting, restarting, elsewhere, Reachable, start,
  after,
}
use gpg_signing_service.History.Fresh.{
  Cache, Fresh, same_some, Reflects-same, Fresh-empty, Fresh-with_pgp, Fresh-with_x509,
  Fresh-without_key, Fresh-invalidate,
}

none-some : {A : Type 0} {a : A} → none ≡ some a → ⊥
none-some e = true≢false (sym (ap is_some e))

module _ (B : Backend) (env : Settings) where
  open B use {key_storage, openpgp, pki, zod}

  abbrev passphrase : String
  passphrase = env.key_passphrase

  abbrev pub IsFresh : World B → Type 0
  IsFresh w = Fresh B passphrase w.keys w.cache

  module _ (r : SignRequest.Request) (course : SignRequest.Course) where
    -- What signing makes without a cache.
    abbrev pub plain : AnyStoredKey → Result String
    plain (x509 key) = sign_commit_data_x509 pki r.commit_data key passphrase
    plain (pgp key) =
        signature_of (open_key openpgp passphrase key >>= sign_with openpgp r.commit_data key)

    abbrev signed_with : StoredKey → Cache B passphrase → Result SigningResult × Cache B passphrase
    signed_with key c =
        sign_commit_data openpgp r.commit_data key passphrase course.cache_read_at course.cached_at
          c

    module _ (keys : key_storage.Store) (key : StoredKey) (c : Cache B passphrase)
        (fresh : Fresh B passphrase keys c) where
      -- The entry for another key is the one before, and one for the key reflects it.
      signed_with-Fresh :
          (id : String) (stored : KeyData)
          → key_storage.get (storage_key id) keys ≡ some stored
          → parse_any_stored_key zod stored ≡ returns (pgp key)
          → Fresh B passphrase keys (signed_with key c).1
      signed_with-Fresh id stored at_id parsed j d k e p =
          let (own, h) = fresh j d k e p in
          let (own_key, reflects) = fresh id stored key at_id parsed in
          elim (Bool-cases (key.key_id == k.key_id)) [
            | inr other ↦ (
              own,
              Reflects-same B passphrase k c (signed_with key c).1
                  (get-sign_commit_data openpgp key passphrase course.cache_read_at course.cached_at
                    k.key_id other r.commit_data c)
                  h,
            )
            | inl same ↦
                let ids : id ≡ j = sym own_key ∙ ((eq_iff key.key_id k.key_id).0 same ∙ own) in
                let both : stored ≡ d =
                  same_some B passphrase true none stored d refl
                    (sym at_id ∙ (ap (λ i. key_storage.get (storage_key i) keys) ids ∙ e)) in
                let one : key ≡ k =
                  pgp-injective key k
                    (returns-injective (sym parsed ∙ (ap (parse_any_stored_key zod) both ∙ p))) in
                (
                  own,
                  subst (λ x. Reflects openpgp x passphrase (signed_with key c).1) one
                      (sign_commit_data-open_key openpgp r.commit_data key passphrase
                        course.cache_read_at course.cached_at c reflects).1,
                )
          ]

    sign_with_key-Good :
        (keys : key_storage.Store) (k : AnyStoredKey)
        → stored_key B (fetch_key B (key_id_param env r) keys) ≡ returns k
        → Good B (Fresh B passphrase keys) env r course plain k
    unfolding sign_with_key
    sign_with_key-Good keys (x509 key) e c fresh = (refl, fresh)
    sign_with_key-Good keys (pgp key) e c fresh =
        let (d, (at_id, parsed)) = stored_key-stored B (key_id_param env r) keys (pgp key) e in
        let id = looked_up (key_id_param env r) in
        let (_, reflects) = fresh id d key at_id parsed in
        (
          ap signature_of
              (sign_commit_data-open_key openpgp r.commit_data key passphrase course.cache_read_at
                course.cached_at c reflects).0,
          signed_with-Fresh keys key c fresh id d at_id parsed,
        )

    signing-IsFresh : (w : World B) → IsFresh w → IsFresh (sign B env r course w).1
    signing-IsFresh w fresh =
        let (_, (keys, kept)) =
          sign-Steady B (Fresh B passphrase w.keys) env r course w.cache fresh plain w
            (sign_with_key-Good w.keys) fresh in
        subst (λ s. Fresh B passphrase s (sign B env r course w).1.cache) (sym keys) kept

  uploading-IsFresh :
      (request_id : String) (course : KeyRoutes.Course) (body : KeyUpload) (w : World B)
      → IsHexUpper 16 body.key_id
      → IsHeard course
      → IsFresh w
      → IsFresh (upload_key B passphrase request_id course body w).1
  unfolding upload_caught upload_stored
  uploading-IsFresh request_id course body w v heard fresh =
      elim (upload_key-cases B passphrase request_id course body w) [
        | inl (m, e) ↦ rw e fresh
        | inr (key, (info, (p, inl (m, (lost, _))))) ↦ absurd (not-IsLost heard lost)
        | inr (key, (info, (p, inr e))) ↦
            let made = prepare-uploaded_key B passphrase request_id course body key info v p in
            let own : body.key_id ≡ key.key_id = ap (λ (k : StoredKey). k.key_id) (sym made) in
            rw (e, own) (Fresh-with_pgp B passphrase key w (subst (IsHexUpper 16) own v) fresh)
      ]

  uploading_x509-IsFresh :
      (request_id : String) (course : KeyRoutes.Course) (body : X509KeyUpload) (w : World B)
      → IsFresh w
      → IsFresh (upload_x509_key B passphrase request_id course body w).1
  unfolding upload_caught upload_x509_stored
  uploading_x509-IsFresh request_id course body w fresh =
      elim (upload_x509_key-cases B passphrase request_id course body w) [
        | inl (m, e) ↦ rw e fresh
        | inr (info, inl (m, (_, e))) ↦
            rw e (Fresh-with_x509 B passphrase (x509_of course body info) w fresh)
        | inr (info, inr e) ↦ rw e (Fresh-with_x509 B passphrase (x509_of course body info) w fresh)
      ]

  -- After the storage's answer to a deletion.
  deleted-IsFresh :
      (request_id : String) (course : KeyRoutes.Course) (key_id : String) (deleted : Bool)
      (w : World B)
      → IsFresh w
      → IsFresh
          (deleted_or_caught B request_id course key_id (returns (KeyStorage.deletion deleted)) w).1
  unfolding deleted_or_caught
  deleted-IsFresh request_id course key_id true w fresh =
      Fresh-invalidate B passphrase key_id w.keys w.cache fresh
  deleted-IsFresh request_id course key_id false w fresh = fresh

  deleting-IsFresh :
      (request_id : String) (course : KeyRoutes.Course) (key_id : String) (w : World B)
      → IsFresh w
      → IsFresh (delete_key B request_id course key_id w).1
  unfolding deleted_or_caught
  deleting-IsFresh request_id course key_id w fresh =
      elim (delete_key-cases B request_id course key_id w) [
        | inl (m, e) ↦ rw e fresh
        | inr (inl (m, e)) ↦ rw e (Fresh-without_key B passphrase key_id w fresh)
        | inr (inr e) ↦ rw e (
            deleted-IsFresh request_id course key_id
              (is_some (key_storage.get (storage_key key_id) w.keys)) (without_key B key_id w)
              (Fresh-without_key B passphrase key_id w fresh))
      ]

  Step-IsFresh : (w w' : World B) → Step B env w w' → IsFresh w → IsFresh w'
  Step-IsFresh _ _ (signing r course w) fresh = signing-IsFresh r course w fresh
  Step-IsFresh _ _ (uploading request_id course body w v heard) fresh =
      uploading-IsFresh request_id course body w v heard fresh
  Step-IsFresh _ _ (uploading_x509 request_id course body w v) fresh =
      uploading_x509-IsFresh request_id course body w fresh
  Step-IsFresh _ _ (deleting request_id course key_id w) fresh =
      deleting-IsFresh request_id course key_id w fresh
  Step-IsFresh _ _ (restarting w) fresh = Fresh-empty B passphrase w.keys w.cache fresh
  Step-IsFresh _ _ (elsewhere buckets admin_buckets audit tokens net w) fresh = fresh

  -- Whatever signatures, uploads, deletions, other requests and restarts there have been, one after another, since the
  -- service had no keys, if for no upload of a PGP key the call of the key storage has rejected after it was served: every
  -- PGP key is stored under its own key id, and the cache holds for it, if anything, what opening it gives.
  pub Reachable-IsFresh : (w : World B) → Reachable B env w → IsFresh w
  Reachable-IsFresh _ (start w empty none_cached) =
      λ j d k e p. absurd (none-some (sym (empty j) ∙ e))
  Reachable-IsFresh _ (after w w' reached step) =
      Step-IsFresh w w' step (Reachable-IsFresh w reached)

  -- Whatever requests have been served, one after another, since the service had no keys, if for no upload of a PGP key the
  -- call of the key storage has rejected after it was served: `POST /sign` answers as it would with an empty cache, so that
  -- a key that has been replaced or deleted is not used any more.
  pub sign-transparent :
      (w : World B) (r : SignRequest.Request) (course : SignRequest.Course)
      → Reachable B env w
      → (sign B env r course w).0
        ≡ (sign B env r course (record w { cache = record w.cache { cache = [] } })).0
  sign-transparent w r course reached =
      let fresh = Reachable-IsFresh w reached in
      (sign-Steady B (Fresh B passphrase w.keys) env r course (record w.cache { cache = [] })
        (Fresh-empty B passphrase w.keys w.cache fresh) (plain r course) w
        (sign_with_key-Good r course w.keys) fresh).0
