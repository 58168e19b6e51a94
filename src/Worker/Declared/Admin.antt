-- ===== src/Worker/Declared/Admin.antt =====
-- The answers of the handlers of the administration against the OpenAPI document.
use gpg_signing_service.Common.{
  String, ◌≡◌, refl, Bool, true, false, inl, inr, Bool-cases, Option-cases, contains,
}
use gpg_signing_service.Common.Result.{Result, returns, throws, Result-cases, ◌>>=◌}
use gpg_signing_service.Http.{is_ok}
use gpg_signing_service.Keys.{pgp, x509}
use gpg_signing_service.Keys.Schema.{parse_any_stored_key}
use gpg_signing_service.Signing.{ParsedKeyInfo}
use gpg_signing_service.X509.{X509KeyInfo, parse_and_validate_x509_key}
use gpg_signing_service.Service.{Backend, World, body_key, get_request}
use gpg_signing_service.KeyRoutes
use gpg_signing_service.KeyRoutes.{
  KeyUpload, X509KeyUpload, x509_of, upload_key, upload_x509_key, upload_stored, upload_x509_stored,
  upload_caught, prepare, store, call_storage,
}
use gpg_signing_service.KeyRoutes.Existing.{
  PublicKey, pgp_key, certificate, list_request, list_keys, public_part, get_public_key,
  delete_request, deleted_or_caught, delete_key, processed, ok_or_throw,
}
use gpg_signing_service.TokenRoutes
use gpg_signing_service.TokenRoutes.{
  TokenCreate, create_caught, create_token, inserted, list_tokens, revoked, revoke_token,
}
use gpg_signing_service.ServiceTokens.{revoke_service_token}
use gpg_signing_service.Audit.Query.{AuditQuery, audit_logs_route}
use gpg_signing_service.Routes.{
  Media, application_json, text_plain, application_pgp_keys, application_pem_certificate_chain,
  Schema, Route,
}
use gpg_signing_service.Routes
use gpg_signing_service.Worker.{
  Payload, Reply, reply_of, public_payload, sign_reply, AdminCall, uploading, uploading_x509,
  listing, showing, deleting, auditing, minting, listing_tokens, revoking, Deployment, route_of,
  handle,
}
use gpg_signing_service.Worker
use gpg_signing_service.Worker.Declared.{declares}

module _ (B : Backend) (d : Deployment) where
  upload_stored-declared :
      (request_id : String) (course : KeyRoutes.Course) (key_id : String) (info : ParsedKeyInfo)
      (result : Result (Unit {0})) (w : World B)
      → declares Routes.upload_key_route
          (reply_of Worker.uploaded (upload_stored B request_id course key_id info result w).0)
        ≡ true
  unfolding upload_stored upload_caught
  upload_stored-declared request_id course key_id info (throws m) w = refl
  upload_stored-declared request_id course key_id info (returns _) w = refl

  upload_key-declared :
      (passphrase request_id : String) (course : KeyRoutes.Course) (body : KeyUpload) (w : World B)
      → declares Routes.upload_key_route
          (reply_of Worker.uploaded (upload_key B passphrase request_id course body w).0)
        ≡ true
  unfolding upload_key upload_caught
  upload_key-declared passphrase request_id course body w =
      elim (Result-cases (prepare B passphrase course body)) [
        | inl ((key, info), e) ↦
            let (result, w') = store B course (pgp key) w in
            rw (e, upload_key) (upload_stored-declared request_id course body.key_id info result w')
        | inr (message, e) ↦ rw (e, upload_key, upload_caught) refl
      ]

  upload_x509_stored-declared :
      (request_id : String) (course : KeyRoutes.Course) (key_id : String) (info : X509KeyInfo)
      (result : Result (Unit {0})) (w : World B)
      → declares Routes.upload_x509_key_route (
          reply_of Worker.uploaded_x509
            (upload_x509_stored B request_id course key_id info result w).0)
        ≡ true
  unfolding upload_x509_stored upload_caught
  upload_x509_stored-declared request_id course key_id info (throws m) w = refl
  upload_x509_stored-declared request_id course key_id info (returns _) w = refl

  upload_x509_key-declared :
      (passphrase request_id : String) (course : KeyRoutes.Course) (body : X509KeyUpload)
      (w : World B)
      → declares Routes.upload_x509_key_route
          (reply_of Worker.uploaded_x509 (upload_x509_key B passphrase request_id course body w).0)
        ≡ true
  unfolding upload_x509_key upload_caught
  upload_x509_key-declared passphrase request_id course body w =
      elim (Result-cases (
        parse_and_validate_x509_key B.pki B.zod.shown body.private_key_pem body.certificate_pem
          passphrase)) [
            | inl (info, e) ↦
                let (result, w') = store B course (x509 (x509_of course body info)) w in
                rw (e, upload_x509_key)
                  (upload_x509_stored-declared request_id course body.key_id info result w')
            | inr (message, e) ↦ rw (e, upload_x509_key, upload_caught) refl
          ]

  list_keys-declared :
      (course : KeyRoutes.Course) (w : World B)
      → declares Routes.list_keys_route (reply_of Worker.keys (list_keys B course w)) ≡ true
  unfolding list_keys
  list_keys-declared course w =
      elim (Result-cases ((call_storage B course list_request w.keys).0 >>= ok_or_throw B)) [
        | inl (result, e) ↦ rw (e, list_keys) refl
        | inr (message, e) ↦ rw (e, list_keys) refl
      ]

  shown-declared :
      (key : Result PublicKey)
      → declares Routes.get_public_key_route (reply_of public_payload (processed key)) ≡ true
  shown-declared (throws m) = refl
  shown-declared (returns (pgp_key text)) = refl
  shown-declared (returns (certificate text)) = refl

  get_public_key-declared :
      (course : KeyRoutes.Course) (key_id : String) (w : World B)
      → declares Routes.get_public_key_route
          (reply_of public_payload (get_public_key B course key_id w))
        ≡ true
  unfolding get_public_key
  get_public_key-declared course key_id w =
      elim (Result-cases (call_storage B course (get_request key_id) w.keys).0) [
        | inr (message, e) ↦ rw (e, get_public_key) refl
        | inl (answer, e) ↦ elim (Bool-cases (is_ok answer.status)) [
          | inl h ↦
              rw (e, h, get_public_key)
                (shown-declared
                  (parse_any_stored_key B.zod (body_key answer.body) >>= public_part B))
          | inr h ↦ rw (e, h, get_public_key) refl
        ]
      ]

  delete_key-declared :
      (request_id : String) (course : KeyRoutes.Course) (key_id : String) (w : World B)
      → declares Routes.delete_key_route
          (reply_of Worker.deleted (delete_key B request_id course key_id w).0)
        ≡ true
  unfolding delete_key deleted_or_caught
  delete_key-declared request_id course key_id w =
      let (answer, keys) = call_storage B course (delete_request key_id) w.keys in
      elim (Result-cases (answer >>= ok_or_throw B)) [
        | inl (result, e) ↦ rw (e, delete_key, deleted_or_caught) refl
        | inr (message, e) ↦ rw (e, delete_key, deleted_or_caught) refl
      ]

  audit_logs-declared :
      (fails : Bool) (q : AuditQuery) (w : World B)
      → declares Routes.get_audit_logs_route
          (reply_of Worker.logs (audit_logs_route d.texts d.newest_rows fails q w.audit))
        ≡ true
  unfolding audit_logs_route
  audit_logs-declared true q w = refl
  audit_logs-declared false q w = refl

  create_caught-declared :
      (name message : String)
      → declares Routes.create_token_route (reply_of Worker.minted (create_caught name message))
        ≡ true
  unfolding create_caught
  create_caught-declared name message =
      elim (Bool-cases (contains message "UNIQUE constraint failed")) [
        | inl h ↦ rw (h, create_caught) refl
        | inr h ↦ rw (h, create_caught) refl
      ]

  create_token-declared :
      (request_id : String) (course : TokenRoutes.Course) (body : TokenCreate) (w : World B)
      → declares Routes.create_token_route
          (reply_of Worker.minted (create_token B d.dates d.digest request_id course body w).0)
        ≡ true
  unfolding create_token
  create_token-declared request_id course body w =
      elim (Result-cases (inserted B d.dates d.digest course body w.tokens)) [
        | inl ((id, rows), e) ↦ rw (e, create_token) refl
        | inr (message, e) ↦ rw (e, create_token) (create_caught-declared body.name message)
      ]

  list_tokens-declared :
      (course : TokenRoutes.Course) (w : World B)
      → declares Routes.list_tokens_route
          (reply_of Worker.tokens (list_tokens B d.dates d.digest course d.newest_tokens w))
        ≡ true
  unfolding list_tokens
  list_tokens-declared course w = elim (Option-cases course.statement_fails) [
    | inl e ↦ rw (e, list_tokens) refl
    | inr (message, e) ↦ rw (e, list_tokens) refl
  ]

  revoked-declared :
      (request_id : String) (course : TokenRoutes.Course) (id : String) (changed : Bool)
      (w : World B)
      → declares Routes.revoke_token_route
          (reply_of Worker.revoked (revoked B d.dates d.digest request_id course id changed w).0)
        ≡ true
  unfolding revoked
  revoked-declared request_id course id true w = refl
  revoked-declared request_id course id false w = refl

  revoke_token-declared :
      (request_id : String) (course : TokenRoutes.Course) (id : String) (w : World B)
      → declares Routes.revoke_token_route
          (reply_of Worker.revoked (revoke_token B d.dates d.digest request_id course id w).0)
        ≡ true
  unfolding revoke_token
  revoke_token-declared request_id course id w = elim (Option-cases course.statement_fails) [
    | inr (message, e) ↦ rw (e, revoke_token) refl
    | inl e ↦
        let (changed, rows) =
          revoke_service_token d.dates d.digest course.executed_at id w.tokens in
        rw (e, revoke_token)
          (revoked-declared request_id course id changed (record w { tokens = rows }))
  ]

  -- Whatever a handler of the administration answers to a request that its schemas have let through, the status of the
  -- answer is one of those that its route declares.
  pub handle-declared :
      (call : AdminCall) (w : World B) → declares (route_of call) (handle B d call w).0 ≡ true
  unfolding handle
  handle-declared (uploading request_id course body) w =
      upload_key-declared d.settings.key_passphrase request_id course body w
  handle-declared (uploading_x509 request_id course body) w =
      upload_x509_key-declared d.settings.key_passphrase request_id course body w
  handle-declared (listing course) w = list_keys-declared course w
  handle-declared (showing course key_id) w = get_public_key-declared course key_id w
  handle-declared (deleting request_id course key_id) w =
      delete_key-declared request_id course key_id w
  handle-declared (auditing fails q) w = audit_logs-declared fails q w
  handle-declared (minting request_id course body) w =
      create_token-declared request_id course body w
  handle-declared (listing_tokens course) w = list_tokens-declared course w
  handle-declared (revoking request_id course id) w = revoke_token-declared request_id course id w
