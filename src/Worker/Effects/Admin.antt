-- ===== src/Worker/Effects/Admin.antt =====
-- What a handler of the administration changes.
use gpg_signing_service.KeyStorage
use gpg_signing_service.Common.{
  List, none, some, String, ◌≡◌, refl, Bool, true, false, inl, inr, Bool-cases, Option-cases,
}
use gpg_signing_service.Common.Result.{Result, returns, throws, Result-cases, ◌>>=◌}
use gpg_signing_service.Keys.{pgp, x509}
use gpg_signing_service.Signing.{ParsedKeyInfo}
use gpg_signing_service.X509.{X509KeyInfo, parse_and_validate_x509_key}
use gpg_signing_service.Service.{Backend, World}
use gpg_signing_service.KeyRoutes
use gpg_signing_service.KeyRoutes.{
  KeyUpload, X509KeyUpload, x509_of, upload_key, upload_x509_key, upload_stored, upload_x509_stored,
  upload_caught, prepare, store, call_storage,
}
use gpg_signing_service.KeyRoutes.Existing.{
  delete_request, deleted_or_caught, delete_key, ok_or_throw,
}
use gpg_signing_service.TokenRoutes
use gpg_signing_service.TokenRoutes.{
  TokenCreate, create_caught, create_token, inserted, list_tokens, revoked, revoke_token,
}
use gpg_signing_service.ServiceTokens.{revoke_service_token}
use gpg_signing_service.Worker.{
  AdminCall, uploading, uploading_x509, listing, showing, deleting, auditing, minting,
  listing_tokens, revoking, Deployment, handle,
}
use mathlib.Core.Path.{subst}
use gpg_signing_service.ServiceTokens.{TokenRow, insert_service_token}
use gpg_signing_service.ServiceTokens.Lifecycle.{
  is_revoked, rows_of, insert-is_revoked, is_revoked-revoke_rows,
}
use gpg_signing_service.Audit.{
  AuditEntry, Recording, log_audit_event, failed, failed_x509, key_upload, uploaded_x509,
}
use gpg_signing_service.KeyRoutes.{upload_failed, upload_entry, admin_entry}
use gpg_signing_service.KeyRoutes.Existing.{deletion_failed, is_deleted, deletion_entry}
use gpg_signing_service.TokenRoutes.{create_entry, created_of, input_of, revoke_entry}
use gpg_signing_service.Common.Result.{throws_returns}
use gpg_signing_service.Worker.Effects.{Grows, log-Grows, Anything}

module _ (B : Backend) (d : Deployment) where
  -- At most one row is written to the audit log, and the tokens that have been revoked are still revoked.
  abbrev pub Lawful : World B → World B → Type 0
  Lawful w w' =
      Grows Anything w.audit w'.audit
      × ((hash : String) → is_revoked hash w.tokens ≡ true → is_revoked hash w'.tokens ≡ true)

  logs-Lawful :
      (rec : Recording) (entry : AuditEntry) (w : World B)
      → Lawful w (record w { audit = log_audit_event rec entry w.audit })
  logs-Lawful rec entry w = (log-Grows Anything rec entry w.audit tt, λ hash h. h)

  upload_stored-Lawful :
      (request_id : String) (course : KeyRoutes.Course) (key_id : String) (info : ParsedKeyInfo)
      (result : Result (Unit {0})) (w : World B)
      → Lawful w (upload_stored B request_id course key_id info result w).1
  unfolding upload_stored upload_caught
  upload_stored-Lawful request_id course key_id info (throws m) w =
      logs-Lawful course.recording (upload_failed request_id (failed m)) w
  upload_stored-Lawful request_id course key_id info (returns _) w =
      logs-Lawful course.recording (upload_entry request_id key_id info) w

  upload_key-Lawful :
      (passphrase request_id : String) (course : KeyRoutes.Course) (body : KeyUpload) (w : World B)
      → Lawful w (upload_key B passphrase request_id course body w).1
  unfolding upload_key upload_caught store
  upload_key-Lawful passphrase request_id course body w =
      elim (Result-cases (prepare B passphrase course body)) [
        | inl ((key, info), e) ↦
            let (result, w') = store B course (pgp key) w in
            rw (e, upload_key) (upload_stored-Lawful request_id course body.key_id info result w')
        | inr (message, e) ↦
            rw (e, upload_key, upload_caught)
              (logs-Lawful course.recording (upload_failed request_id (failed message)) w)
      ]

  upload_x509_stored-Lawful :
      (request_id : String) (course : KeyRoutes.Course) (key_id : String) (info : X509KeyInfo)
      (result : Result (Unit {0})) (w : World B)
      → Lawful w (upload_x509_stored B request_id course key_id info result w).1
  unfolding upload_x509_stored upload_caught
  upload_x509_stored-Lawful request_id course key_id info (throws m) w =
      logs-Lawful course.recording (upload_failed request_id (failed_x509 m)) w
  upload_x509_stored-Lawful request_id course key_id info (returns _) w =
      logs-Lawful course.recording
        (admin_entry request_id key_upload key_id true none
          (some (uploaded_x509 info.fingerprint info.algorithm info.subject)))
        w

  upload_x509_key-Lawful :
      (passphrase request_id : String) (course : KeyRoutes.Course) (body : X509KeyUpload)
      (w : World B)
      → Lawful w (upload_x509_key B passphrase request_id course body w).1
  unfolding upload_x509_key upload_caught store
  upload_x509_key-Lawful passphrase request_id course body w =
      elim (Result-cases (
        parse_and_validate_x509_key B.pki B.zod.shown body.private_key_pem body.certificate_pem
          passphrase)) [
            | inl (info, e) ↦
                let (result, w') = store B course (x509 (x509_of course body info)) w in
                rw (e, upload_x509_key)
                  (upload_x509_stored-Lawful request_id course body.key_id info result w')
            | inr (message, e) ↦
                rw (e, upload_x509_key, upload_caught)
                  (logs-Lawful course.recording (upload_failed request_id (failed_x509 message)) w)
          ]

  deleted-Lawful :
      (request_id : String) (course : KeyRoutes.Course) (key_id : String)
      (result : Result KeyStorage.Body) (w : World B)
      → Lawful w (deleted_or_caught B request_id course key_id result w).1
  unfolding deleted_or_caught
  deleted-Lawful request_id course key_id (throws message) w =
      logs-Lawful course.recording (deletion_failed request_id key_id message) w
  deleted-Lawful request_id course key_id (returns result) w =
      elim (Bool-cases (is_deleted result)) [
        | inl h ↦
            rw (h, deleted_or_caught)
              (logs-Lawful course.recording (deletion_entry request_id key_id true) w)
        | inr h ↦
            rw (h, deleted_or_caught)
              (logs-Lawful course.recording (deletion_entry request_id key_id false) w)
      ]

  delete_key-Lawful :
      (request_id : String) (course : KeyRoutes.Course) (key_id : String) (w : World B)
      → Lawful w (delete_key B request_id course key_id w).1
  unfolding delete_key
  delete_key-Lawful request_id course key_id w =
      let (answer, keys) = call_storage B course (delete_request key_id) w.keys in
      deleted-Lawful request_id course key_id (answer >>= ok_or_throw B) (record w { keys = keys })

  inserted-is_revoked :
      (hash : String) (course : TokenRoutes.Course) (body : TokenCreate) (rows : List TokenRow)
      (id : String) (rows' : List TokenRow)
      → inserted B d.dates d.digest course body rows ≡ returns (id, rows')
      → is_revoked hash rows ≡ true
      → is_revoked hash rows' ≡ true
  unfolding inserted
  inserted-is_revoked hash course body rows id rows' e h =
      elim (Option-cases course.statement_fails) [
        | inr (message, f) ↦ absurd (throws_returns (rw (f, inserted) at e))
        | inl f ↦
            let made =
              insert_service_token d.dates d.digest course.random_id course.executed_at
                (input_of B d.dates d.digest course body) rows in
            let same : made ≡ returns (id, rows') = rw (f, inserted) at e in
            subst (λ r. is_revoked hash (rows_of r rows) ≡ true) same
              (insert-is_revoked d.dates d.digest hash course.random_id course.executed_at
                (input_of B d.dates d.digest course body) rows h)
      ]

  create_token-Lawful :
      (request_id : String) (course : TokenRoutes.Course) (body : TokenCreate) (w : World B)
      → Lawful w (create_token B d.dates d.digest request_id course body w).1
  unfolding create_token inserted
  create_token-Lawful request_id course body w =
      elim (Result-cases (inserted B d.dates d.digest course body w.tokens)) [
        | inr (message, e) ↦ rw (e, create_token) (inl refl, λ hash h. h)
        | inl ((id, rows), e) ↦
            rw (e, create_token)
              (
                log-Grows Anything course.recording
                    (create_entry request_id body
                      (created_of B d.dates d.digest course body id).expires_at)
                    w.audit tt,
                λ hash h. inserted-is_revoked hash course body w.tokens id rows e h,
              )
      ]

  revoked-Lawful :
      (request_id : String) (course : TokenRoutes.Course) (id : String) (changed : Bool)
      (w : World B)
      → Lawful w (revoked B d.dates d.digest request_id course id changed w).1
  unfolding revoked
  revoked-Lawful request_id course id true w =
      logs-Lawful course.recording (revoke_entry request_id id) w
  revoked-Lawful request_id course id false w = (inl refl, λ hash h. h)

  revoke_token-Lawful :
      (request_id : String) (course : TokenRoutes.Course) (id : String) (w : World B)
      → Lawful w (revoke_token B d.dates d.digest request_id course id w).1
  unfolding revoke_token revoke_service_token
  revoke_token-Lawful request_id course id w = elim (Option-cases course.statement_fails) [
    | inr (message, e) ↦ rw (e, revoke_token) (inl refl, λ hash h. h)
    | inl e ↦
        let (changed, rows) =
          revoke_service_token d.dates d.digest course.executed_at id w.tokens in
        let (grows, kept) =
          revoked-Lawful request_id course id changed (record w { tokens = rows }) in
        rw (e, revoke_token)
          (
            grows,
            λ hash h.
                kept hash
                  (is_revoked-revoke_rows hash (d.dates.to_iso course.executed_at) id w.tokens h),
          )
  ]

  pub handle-Lawful : (call : AdminCall) (w : World B) → Lawful w (handle B d call w).1
  unfolding handle
  handle-Lawful (uploading request_id course body) w =
      upload_key-Lawful d.settings.key_passphrase request_id course body w
  handle-Lawful (uploading_x509 request_id course body) w =
      upload_x509_key-Lawful d.settings.key_passphrase request_id course body w
  handle-Lawful (listing course) w = (inl refl, λ hash h. h)
  handle-Lawful (showing course key_id) w = (inl refl, λ hash h. h)
  handle-Lawful (deleting request_id course key_id) w = delete_key-Lawful request_id course key_id w
  handle-Lawful (auditing fails q) w = (inl refl, λ hash h. h)
  handle-Lawful (minting request_id course body) w = create_token-Lawful request_id course body w
  handle-Lawful (listing_tokens course) w = (inl refl, λ hash h. h)
  handle-Lawful (revoking request_id course id) w = revoke_token-Lawful request_id course id w
