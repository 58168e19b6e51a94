-- ===== src/App.antt =====
-- index.ts: the endpoints without authentication, and the two behind it, with their middleware in its order.
pub mod Guarded
pub mod PublicKeys
mod Tests
use gpg_signing_service.ServiceTokens.{Faults}
use gpg_signing_service.Common.{
  ℕ, String, Bool, true, false, Option, none, some, List, ◌&&◌, not, if◌then◌else◌, or_text,
}
use gpg_signing_service.Common.Int.{ℤ}
use gpg_signing_service.Common.Result.{Result, returns, throws}
use gpg_signing_service.Http.{
  Status, is_ok, ok, not_found, internal_server_error, service_unavailable,
}
use gpg_signing_service.KeyStorage
use gpg_signing_service.Dates.{Dates}
use gpg_signing_service.Oidc.{Platform, Net}
use gpg_signing_service.Oidc
use gpg_signing_service.Signing.{extract_public_key}
use gpg_signing_service.Auth.{Comparison, Passage, next, refuse, Variables, admin_auth, caller_auth}
use gpg_signing_service.Security
use gpg_signing_service.Security.{Admission, admitted, refused, admin_rate_limit}
use gpg_signing_service.Errors.{
  ErrorCode, Outcome, success, failure, key_not_found, key_processing_error, internal_error,
}
use gpg_signing_service.Service.{
  Backend, World, no_payload, fetch_key_storage, get_request, body_key,
}
use gpg_signing_service.SignRequest.{Settings, Request, Response, Course}
use gpg_signing_service.Sign.{sign}

-- The answer of the endpoint itself, or of the middleware before it: the rate limit or the authentication.
pub data Answer (A : Type 0) : Type 0 where
  served : A → Answer A
  limited : Status → ErrorCode → Option ℤ → Answer A
  unauthenticated : Status → String → Option String → Answer A

abbrev pub is_served : {A : Type 0} → Answer A → Bool
is_served (served a) = true
is_served _ = false

pub record Health : Type 0 where
  pub is_healthy : Bool
  pub timestamp : String
  pub key_storage : Bool
  pub database : Bool

abbrev pub health_request : KeyStorage.Request
health_request = record { path = "/health"; method = "GET"; key_id = none; payload = no_payload }

-- the answer of `app.onError`
abbrev pub unhandled : {A : Type 0} → Outcome A
unhandled = failure internal_server_error "Internal server error" internal_error

module _ (B : Backend) where
  open B use {bucket_storage, key_storage, openpgp}

  -- `GET /health`: the call of the storage may reject; the statement on the database rejects (`none`) or says whether
  -- it has a result.
  unfoldable pub health :
      (timestamp : String) (storage_rejects : Bool) (database : Option Bool)
      → World B
      → Status × Health
  unfolding fetch_key_storage
  health timestamp storage_rejects database w =
      let storage =
        not storage_rejects && is_ok (fetch_key_storage B health_request w.keys).0.status in
      let data' : Bool = elim database [ none ↦ false | some found ↦ found ] in
      let healthy = storage && data' in
      (
        if healthy then ok else service_unavailable,
        record {
          is_healthy = healthy;
          timestamp = timestamp;
          key_storage = storage;
          database = data';
        },
      )

  -- The public key of the JSON of a key; one without an armored key cannot be read.
  unfoldable pub published : Option String → Outcome String
  unfolding extract_public_key
  published none = failure internal_server_error "Key processing error" key_processing_error
  published (some armored) = elim (extract_public_key openpgp armored) [
    | throws message ↦ failure internal_server_error "Key processing error" key_processing_error
    | returns key ↦ success ok key
  ]

  -- `GET /public-key`
  unfoldable pub public_key :
      (default_key_id : String) (call_rejects : Bool) (query : Option String)
      → World B
      → Outcome String
  unfolding fetch_key_storage published
  public_key default_key_id call_rejects query w =
      let answer = (fetch_key_storage B (get_request (or_text query default_key_id)) w.keys).0 in
      if call_rejects
      then unhandled
      else if is_ok answer.status
      then published (body_key answer.body).armored_private_key
      else failure not_found "Key not found" key_not_found

  -- After the authentication of a caller.
  unfoldable pub sign_as :
      Settings → Request → Course → Passage Variables → World B → Answer Response × World B
  unfolding sign
  sign_as env r course (refuse status message code) w = (unauthenticated status message code, w)
  sign_as env r course (next v) w =
      let (answer, w') = sign B env (record r { variables = v }) course w in (served answer, w')

  -- `/sign`: the authentication of the caller, then the handler.
  unfoldable pub sign_endpoint :
      Platform
      → Oidc.Settings
      → Dates
      → (digest : String → List ℕ) → (now : ℕ) → (faults : Faults) → (header : Option String)
      → Settings
      → Request
      → Course
      → World B
      → Answer Response × World B
  unfolding caller_auth sign_as
  sign_endpoint p oidc dates digest now faults header env r course w =
      let (passage, (net, tokens)) =
        caller_auth p oidc dates digest now faults header (w.net, w.tokens) in
      sign_as env r course passage (record w { net = net; tokens = tokens })

  module _ {A : Type 0} (handler : World B → A × World B) where
    -- After the rate limit: the authentication of the administrator, then the handler.
    unfoldable pub authenticated : Passage Unit → World B → Answer A × World B
    authenticated (refuse status message code) w = (unauthenticated status message code, w)
    authenticated (next _) w = let (answer, w') = handler w in (served answer, w')

    unfoldable pub rate_limited_admin :
        Comparison
        → (admin_token : String) → Option String
        → Admission
        → World B
        → Answer A × World B
    unfolding admin_auth authenticated
    rate_limited_admin c admin_token header (refused status code retry_after) w =
        (limited status code retry_after, w)
    rate_limited_admin c admin_token header (admitted remaining reset) w =
        authenticated (admin_auth c admin_token header) w

    -- `/admin`: a handler of routes/admin.ts or routes/tokens.ts behind the rate limit and the authentication.
    unfoldable pub admin_endpoint :
        Comparison
        → (admin_token : String) → (ip : String) → (call_fails : Bool) → (now later answered_at : ℕ)
        → (header : Option String) → World B
        → Answer A × World B
    unfolding admin_rate_limit rate_limited_admin
    admin_endpoint c admin_token ip call_fails now later answered_at header w =
        let (admission, buckets) =
          admin_rate_limit bucket_storage ip call_fails now later answered_at w.admin_buckets in
        rate_limited_admin c admin_token header admission (record w { admin_buckets = buckets })
