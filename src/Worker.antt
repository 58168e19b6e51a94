-- ===== src/Worker.antt =====
-- index.ts as a whole: what the worker answers to each request, and what it makes of its state. The router has found the
-- route of the request, and the schemas of the route have been applied; a request whose input a schema refuses is
-- `invalid`, and one without a route `unrouted`. Headers of answers are left aside.
pub mod Declared
pub mod Effects
pub mod Histories
pub mod Revoked
pub mod Quota
pub mod Tests
use gpg_signing_service.Common.{
  ℕ, String, Bool, true, false, Option, none, some, List, [], ◌∷◌, ◌&&◌, ◌||◌, eqb, any, is_some,
  if◌then◌else◌,
}
use gpg_signing_service.Common.Int.{ℤ}
use gpg_signing_service.Http.{
  Status, internal_server_error, status_code, bad_request, not_found, no_content,
}
use gpg_signing_service.Dates.{Dates}
use gpg_signing_service.Oidc.{Platform}
use gpg_signing_service.Oidc
use gpg_signing_service.Errors.{
  ErrorCode, Outcome, success, failure, invalid_request, not_found_error, internal_error,
}
use gpg_signing_service.Auth.{Comparison, Variables, Passage, next, refuse, caller_auth}
use gpg_signing_service.Audit.{AuditRow}
use gpg_signing_service.Audit.Query.{Newest, Texts, AuditQuery, AuditLogs, audit_logs_route}
use gpg_signing_service.KeyStorage
use gpg_signing_service.ServiceTokens.{Faults, TokenRow, TokenSummary}
use gpg_signing_service.Service.{Backend, World}
use gpg_signing_service.SignRequest
use gpg_signing_service.SignRequest.{Settings, signature, problem}
use gpg_signing_service.KeyRoutes
use gpg_signing_service.KeyRoutes.{
  KeyUpload, X509KeyUpload, KeyResponse, upload_key, upload_x509_key,
}
use gpg_signing_service.KeyRoutes.Existing.{
  PublicKey, pgp_key, certificate, list_keys, get_public_key, delete_key,
}
use gpg_signing_service.TokenRoutes
use gpg_signing_service.TokenRoutes.{
  TokenCreate, TokenCreated, create_token, list_tokens, revoke_token,
}
use gpg_signing_service.App.{
  Answer, served, limited, unauthenticated, Health, health, public_key, sign_endpoint,
  admin_endpoint,
}
use gpg_signing_service.Routes.{
  Route, health_route, public_key_route, sign_route, upload_key_route, upload_x509_key_route,
  list_keys_route, get_public_key_route, delete_key_route, get_audit_logs_route, create_token_route,
  list_tokens_route, revoke_token_route,
}

-- The body of an answer.
pub data Payload : Type 0 where
  nothing : Payload
  healthy : Health → Payload
  signed armored certified : String → Payload
  uploaded uploaded_x509 : KeyResponse → Payload
  keys deleted : KeyStorage.Body → Payload
  logs : AuditLogs → Payload
  minted : TokenCreated → Payload
  tokens : List TokenSummary → Payload
  revoked : String → Payload
  -- the fields `error`, `code` and `retryAfter`
  errors : String → ErrorCode → Option ℤ → Payload
  -- the answer of an authentication: the fields `error` and `code`
  denied : String → Option String → Payload

pub record Reply : Type 0 where
  pub status : Status
  pub payload : Payload

abbrev pub reply_of : {A : Type 0} → (A → Payload) → Outcome A → Reply
reply_of payload (success status a) = record { status = status; payload = payload a }
reply_of payload (failure status message code) = record {
  status = status;
  payload = errors message code none;
}

abbrev pub public_payload : PublicKey → Payload
public_payload (pgp_key text) = armored text
public_payload (certificate text) = certified text

abbrev pub sign_payload : SignRequest.Body → Payload
sign_payload (signature text) = signed text
sign_payload (problem message code retry_after) = errors message code retry_after

abbrev pub sign_reply : SignRequest.Response → Reply
sign_reply answer = record { status = answer.status; payload = sign_payload answer.body }

-- `defaultHook` of lib/openapi.ts, without the list of the issues
abbrev pub validation_failed : Reply
validation_failed = record {
  status = bad_request;
  payload = errors "Validation failed" invalid_request none;
}

-- `app.notFound`
abbrev pub not_found_reply : Reply
not_found_reply = record { status = not_found; payload = errors "Not found" not_found_error none }

-- `app.onError`
abbrev pub unhandled_reply : Reply
unhandled_reply = record {
  status = internal_server_error;
  payload = errors "Internal server error" internal_error none;
}

-- The `error` of an answer of the rate limit: a refusal has `retryAfter`, a failure has none.
abbrev limit_message : Option ℤ → String
limit_message none = "Service temporarily unavailable"
limit_message (some n) = "Rate limit exceeded"

abbrev pub answer_reply : Answer Reply → Reply
answer_reply (served reply) = reply
answer_reply (limited status code retry_after) = record {
  status = status;
  payload = errors (limit_message retry_after) code retry_after;
}
answer_reply (unauthenticated status message code) = record {
  status = status;
  payload = denied message code;
}

-- What a route of routes/admin.ts or routes/tokens.ts is given.
pub data AdminCall : Type 0 where
  uploading : String → KeyRoutes.Course → KeyUpload → AdminCall
  uploading_x509 : String → KeyRoutes.Course → X509KeyUpload → AdminCall
  listing : KeyRoutes.Course → AdminCall
  showing : KeyRoutes.Course → (key_id : String) → AdminCall
  deleting : String → KeyRoutes.Course → (key_id : String) → AdminCall
  auditing : (statement_fails : Bool) → AuditQuery → AdminCall
  minting : String → TokenRoutes.Course → TokenCreate → AdminCall
  listing_tokens : TokenRoutes.Course → AdminCall
  revoking : String → TokenRoutes.Course → (id : String) → AdminCall

pub data AdminTarget : Type 0 where
  routed : AdminCall → AdminTarget
  -- a schema refuses the input, its validation throws, or there is no route
  invalid failing unrouted : AdminTarget

-- A request to `/admin`, and what its middleware meets.
pub record AdminArrival : Type 0 where
  pub header : Option String
  pub ip : String
  pub call_fails : Bool
  pub now : ℕ
  pub later : ℕ
  pub answered_at : ℕ
  pub target : AdminTarget

-- A request to `/sign`, and what its middleware meets; the authentication sets its variables.
pub record SignArrival : Type 0 where
  pub header : Option String
  pub now : ℕ
  pub faults : Faults
  pub request : SignRequest.Request
  pub course : SignRequest.Course
  pub is_valid : Bool

pub data Arrival : Type 0 where
  -- an `OPTIONS` request, which `productionCors` answers
  preflight : Arrival
  checking : (timestamp : String) → (storage_rejects : Bool) → Option Bool → Arrival
  fetching : (call_rejects : Bool) → (query : Option String) → Arrival
  signing : SignArrival → Arrival
  administering : AdminArrival → Arrival
  invalid unrouted : Arrival

-- The parameters of the code, and the settings of the deployment.
pub record Deployment : Type 0 where
  pub platform : Platform
  pub oidc : Oidc.Settings
  pub dates : Dates
  pub digest : String → List ℕ
  pub comparison : Comparison
  pub texts : Texts
  pub newest_rows : Newest texts
  pub newest_tokens : List TokenRow → List TokenRow
  pub admin_token : String
  pub settings : Settings

-- The declaration of the route of a call.
abbrev pub route_of : AdminCall → Route
route_of (uploading _ _ _) = upload_key_route
route_of (uploading_x509 _ _ _) = upload_x509_key_route
route_of (listing _) = list_keys_route
route_of (showing _ _) = get_public_key_route
route_of (deleting _ _ _) = delete_key_route
route_of (auditing _ _) = get_audit_logs_route
route_of (minting _ _ _) = create_token_route
route_of (listing_tokens _) = list_tokens_route
route_of (revoking _ _ _) = revoke_token_route

module _ (B : Backend) (d : Deployment) where
  abbrev pub with_reply : {A : Type 0} → (A → Payload) → Outcome A × World B → Reply × World B
  with_reply payload (outcome, w) = (reply_of payload outcome, w)

  unfoldable pub handle : AdminCall → World B → Reply × World B
  unfolding upload_key upload_x509_key list_keys get_public_key delete_key audit_logs_route
      create_token list_tokens revoke_token
  handle (uploading request_id course body) w =
      with_reply uploaded (upload_key B d.settings.key_passphrase request_id course body w)
  handle (uploading_x509 request_id course body) w =
      with_reply uploaded_x509
        (upload_x509_key B d.settings.key_passphrase request_id course body w)
  handle (listing course) w = with_reply keys (list_keys B course w, w)
  handle (showing course key_id) w = with_reply public_payload (get_public_key B course key_id w, w)
  handle (deleting request_id course key_id) w =
      with_reply deleted (delete_key B request_id course key_id w)
  handle (auditing statement_fails q) w =
      with_reply logs (audit_logs_route d.texts d.newest_rows statement_fails q w.audit, w)
  handle (minting request_id course body) w =
      with_reply minted (create_token B d.dates d.digest request_id course body w)
  handle (listing_tokens course) w =
      with_reply tokens (list_tokens B d.dates d.digest course d.newest_tokens w, w)
  handle (revoking request_id course id) w =
      with_reply revoked (revoke_token B d.dates d.digest request_id course id w)

  unfoldable pub handle_target : AdminTarget → World B → Reply × World B
  unfolding handle
  handle_target (routed call) w = handle call w
  handle_target invalid w = (validation_failed, w)
  handle_target failing w = (unhandled_reply, w)
  handle_target unrouted w = (not_found_reply, w)

  unfoldable pub administer : AdminArrival → World B → Reply × World B
  unfolding admin_endpoint handle_target
  administer a w =
      let (answer, w') =
        admin_endpoint B (handle_target a.target) d.comparison d.admin_token a.ip a.call_fails a.now
          a.later a.answered_at a.header w in
      (answer_reply answer, w')

  -- After the authentication of a caller, of a request that the schemas refuse.
  abbrev pub refused_sign : Passage Variables → Reply
  refused_sign (refuse status message code) = record {
    status = status;
    payload = denied message code;
  }
  refused_sign (next v) = validation_failed

  abbrev pub sign_answer : Answer SignRequest.Response → Reply
  sign_answer (served answer) = sign_reply answer
  sign_answer (limited status code retry_after) = answer_reply (limited status code retry_after)
  sign_answer (unauthenticated status message code) =
      answer_reply (unauthenticated status message code)

  unfoldable pub sign_valid : SignArrival → World B → Reply × World B
  unfolding sign_endpoint
  sign_valid a w =
      let (answer, w') =
        sign_endpoint B d.platform d.oidc d.dates d.digest a.now a.faults a.header d.settings
          a.request a.course w in
      (sign_answer answer, w')

  unfoldable pub sign_invalid : SignArrival → World B → Reply × World B
  unfolding caller_auth
  sign_invalid a w =
      let (passage, (net, rows)) =
        caller_auth d.platform d.oidc d.dates d.digest a.now a.faults a.header (w.net, w.tokens) in
      (refused_sign passage, record w { net = net; tokens = rows })

  unfoldable pub serve : Arrival → World B → Reply × World B
  unfolding health public_key sign_valid sign_invalid administer
  serve preflight w = (record { status = no_content; payload = nothing }, w)
  serve (checking timestamp storage_rejects database) w =
      let (status, body) = health B timestamp storage_rejects database w in
      (record { status = status; payload = healthy body }, w)
  serve (fetching call_rejects query) w =
      (reply_of armored (public_key B d.settings.key_id call_rejects query w), w)
  serve (signing a) w = if a.is_valid then sign_valid a w else sign_invalid a w
  serve (administering a) w = administer a w
  serve invalid w = (validation_failed, w)
  serve unrouted w = (not_found_reply, w)

  -- The state after some requests, one after another.
  unfoldable pub serve_all : List Arrival → World B → World B
  unfolding serve
  serve_all [] w = w
  serve_all (a ∷ rest) w = serve_all rest (serve a w).1
