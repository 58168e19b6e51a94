-- ===== src/Requests/Served.antt =====
-- From the body of a request to the answer: validation, then the handler.
use gpg_signing_service.Common.{
  ℕ, ◌/◌, String, ◌≡◌, refl, true, false, none, some, any, leb, utf16_length, if◌then◌else◌,
}
use gpg_signing_service.Common.Result.{returns}
use gpg_signing_service.Http.{created}
use gpg_signing_service.Keys.{pgp}
use gpg_signing_service.Keys.Schema.{is_armored}
use gpg_signing_service.Oidc.{Platform, Settings, Net}
use gpg_signing_service.Auth.{caller_auth, token_passage}
use gpg_signing_service.ServiceTokens.{Faults, generate_token, clashes, some_if_any}
use gpg_signing_service.ServiceTokens.Lifecycle.{is_past}
use gpg_signing_service.Signing.{ParsedKeyInfo, parse_and_validate_key}
use gpg_signing_service.Service.{Backend, World, stored_key, fetch_key}
use gpg_signing_service.KeyRoutes
use gpg_signing_service.KeyRoutes.{KeyUpload, upload_key}
use gpg_signing_service.KeyRoutes.Upload.{answer_of}
use gpg_signing_service.KeyRoutes.Served.{made, upload_key-served}
use gpg_signing_service.TokenRoutes
use gpg_signing_service.TokenRoutes.{TokenCreate, key_ids_of, expiry_of, created_of, create_token}
use gpg_signing_service.TokenRoutes.Minted.{bearer, row, create_token-admitted}
use gpg_signing_service.Worker.{
  AdminCall, uploading, uploading_x509, minting, auditing, AdminTarget, routed, invalid, failing,
  Deployment, Reply, reply_of, handle, handle_target, unhandled_reply,
}
use gpg_signing_service.Worker
use gpg_signing_service.Requests.{
  Field, present, Parsed, accepted, refused, raised, RawKeyUpload, RawTokenCreate, parse_key_upload,
  parse_token_create,
}
use gpg_signing_service.Requests.Validated.{
  parse_key_upload-IsUpload, parse_key_upload-raised, parse_token_create-key_ids,
}

-- What validation makes of a request: the call of the handler, an answer 400, or an answer 500.
abbrev pub target_of : {A : Type 0} → (A → AdminCall) → Parsed A → AdminTarget
target_of call (accepted a) = routed (call a)
target_of call refused = invalid
target_of call (raised message) = failing

module _ (B : Backend) (d : Deployment) (request_id : String) where
  -- `POST /admin/keys`, from the body on
  unfoldable pub upload : KeyRoutes.Course → RawKeyUpload → World B → Reply × World B
  unfolding parse_key_upload handle_target
  upload course raw w =
      handle_target B d (target_of (uploading request_id course) (parse_key_upload B.zod.shown raw))
        w

  -- `POST /admin/tokens`, from the body on
  unfoldable pub mint : TokenRoutes.Course → RawTokenCreate → World B → Reply × World B
  unfolding parse_token_create handle_target
  mint course raw w =
      handle_target B d (target_of (minting request_id course) (parse_token_create raw)) w

  -- If the schema accepts the body of an upload, `parseAndValidateKey` accepts the key, the key storage answers, and the
  -- time of the upload is one that the schema of stored keys takes, then the upload answers 201, and in the state right
  -- after it the storage serves the key as it was uploaded, under the key id of the body in upper case.
  pub upload-served :
      (course : KeyRoutes.Course) (raw : RawKeyUpload) (body : KeyUpload) (info : ParsedKeyInfo)
      (w : World B)
      → parse_key_upload B.zod.shown raw ≡ accepted body
      → parse_and_validate_key B.openpgp B.zod.shown body.armored_private_key
          d.settings.key_passphrase
        ≡ returns info
      → course.call_fails ≡ none
      → B.zod.is_datetime course.created_at ≡ true
      → ((upload course raw w).0
          ≡ record { status = created; payload = Worker.uploaded (answer_of body.key_id info) })
        × (stored_key B (fetch_key B body.key_id (upload course raw w).1.keys)
            ≡ returns (pgp (made B d.settings.key_passphrase request_id course body info)))
  unfolding upload handle_target handle
  upload-served course raw body info w accepts valid called dated =
      let checked = parse_key_upload-IsUpload B.zod.shown raw body accepts in
      let (answer, there) =
        upload_key-served B d.settings.key_passphrase request_id course body info w
          (record {
            armored = checked.armored;
            long = checked.long;
            key_id = checked.key_id;
            created_at = dated;
          })
          valid called in
      (
        rw (accepts, upload, handle_target, handle, answer) refl,
        rw (accepts, upload, handle_target, handle) there,
      )

  -- A well-formed armored key of fewer than 350 units is not answered 400: the transform of the schema throws, the answer
  -- is 500, and nothing changes.
  pub upload-short :
      (course : KeyRoutes.Course) (armored : String) (key_id : Field String) (w : World B)
      → is_armored armored ≡ true
      → leb 350 (utf16_length armored) ≡ false
      → upload course (record { armored_private_key = present armored; key_id = key_id }) w
        ≡ (unhandled_reply, w)
  unfolding upload handle_target
  upload-short course armored key_id w h short =
      rw (parse_key_upload-raised B.zod.shown armored key_id h short, upload, handle_target) refl

  -- If the schema accepts the body, the database executes the INSERT, and neither the name of the body nor the random
  -- values are in the table, then minting answers 201 with the token. With the table as it is right after that, and if the
  -- SELECT is answered, a caller who presents the token is let through until it expires, with the name and the allowlist of
  -- the body, and refused after that.
  pub mint-admitted :
      (course : TokenRoutes.Course) (raw : RawTokenCreate) (body : TokenCreate) (w : World B)
      (p : Platform) (env : Settings) (now : ℕ) (faults : Faults) (net : Net)
      → parse_token_create raw ≡ accepted body
      → course.statement_fails ≡ none
      → faults.select_fails ≡ none
      → any (clashes (row B d.dates d.digest request_id course body w)) w.tokens ≡ false
      → ((mint course raw w).0 ≡ record {
        status = created;
        payload = Worker.minted (created_of B d.dates d.digest course body course.random_id);
      })
        × ((caller_auth p env d.dates d.digest now faults
              (bearer (generate_token course.random_base64))
              (net, (mint course raw w).1.tokens)).0
            ≡ token_passage (now / 1000) (
                if is_past now (expiry_of body course.asked_at)
                then none
                else some (record {
                  id = course.random_id;
                  name = body.name;
                  allowed_key_ids = some_if_any (key_ids_of body);
                })))
  unfolding mint handle_target handle
  mint-admitted course raw body w p env now faults net accepts works answered fresh =
      let (answer, admitted) =
        create_token-admitted B d.dates d.digest request_id course body w p env now faults net works
          answered fresh (parse_token_create-key_ids raw body accepts) in
      (
        rw (accepts, mint, handle_target, handle, answer) refl,
        rw (accepts, mint, handle_target, handle) admitted,
      )
