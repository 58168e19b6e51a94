-- ===== src/Sign.antt =====
-- routes/sign.ts: the handler of `POST /sign`, with the Durable Objects behind it
-- and the audit log.
pub mod Limited
pub mod Audited
pub mod Paid
pub mod Ends
pub mod Spent
pub mod Steady
pub mod Tests
use gpg_signing_service.Common.{
  ℕ, ◌/◌, String, Bool, true, false, Option, none, some, List, [], ◌∷◌, ◌&&◌, ◌||◌, not,
  if◌then◌else◌, truthy, or_text, truthy?, ◌+s◌, contains, includes, utf16_length, ◌==◌,
}
use gpg_signing_service.Common.Int.{ℤ, sub_ℕ, ceil_div}
use gpg_signing_service.Common.Result.{Result, returns, throws}
use gpg_signing_service.Http.{
  Status, is_ok, ok, bad_request, forbidden, not_found, too_many_requests, internal_server_error,
  service_unavailable,
}
use gpg_signing_service.Keys.{AnyStoredKey, pgp, x509, create_key_id}
use gpg_signing_service.RateLimiter
use gpg_signing_service.RateLimiter.{RateLimitResult, allowed, denied}
use gpg_signing_service.KeyStorage
use gpg_signing_service.KeyCache.{DecryptedKeyCache}
use gpg_signing_service.Signing.{SigningResult, sign_commit_data}
use gpg_signing_service.X509.{sign_commit_data_x509}
use gpg_signing_service.Auth.{Variables}
use gpg_signing_service.Errors.{
  ErrorCode, invalid_request, rate_limit_error, rate_limited, key_not_found, sign_error,
}
use gpg_signing_service.Audit.{AuditEntry, AuditAction, Recording, signed, failed, log_audit_event}
use gpg_signing_service.SignRequest.{
  Body, signature, problem, Response, refusal, Request, Settings, Calls, answered, rejected, Course,
  key_id_param, success_entry, is_not_found, failure_entry, is_listed,
}
use gpg_signing_service.Service.{Backend, World, fetch_rate_limiter, fetch_key, stored_key}

abbrev pub signature_of : Result SigningResult → Result String
signature_of (throws e) = throws e
signature_of (returns result) = returns result.signature

module _ (B : Backend) where
  open B use {key_storage, openpgp, pki}

  abbrev pub logged : Course → AuditEntry → World B → World B
  logged course entry w = record w { audit = log_audit_event course.recording entry w.audit }

  -- the `catch` of the handler
  unfoldable pub caught : Settings → Request → Course → String → World B → Response × World B
  unfolding contains
  caught env r course message w =
      if contains message "Rate limiter"
      then (refusal service_unavailable "Service temporarily unavailable" rate_limit_error, w)
      else (
        if is_not_found message
            then refusal not_found message key_not_found
            else refusal internal_server_error message sign_error,
        logged course (failure_entry env r message) w,
      )

  -- The signature, by the type of the key.
  unfoldable pub sign_with_key :
      Settings
      → Request
      → Course
      → AnyStoredKey
      → DecryptedKeyCache openpgp.PrivateKey
      → Result String × DecryptedKeyCache openpgp.PrivateKey
  unfolding sign_commit_data sign_commit_data_x509
  sign_with_key env r course (x509 key) c =
      (sign_commit_data_x509 pki r.commit_data key env.key_passphrase, c)
  sign_with_key env r course (pgp key) c =
      let (result, c') =
        sign_commit_data openpgp r.commit_data key env.key_passphrase course.cache_read_at
          course.cached_at c in
      (signature_of result, c')

  unfoldable pub finish :
      Settings
      → Request
      → Course
      → (remaining : ℤ) → (reset_at : ℕ) → Result String
      → World B
      → Response × World B
  unfolding caught
  finish env r course remaining reset_at (throws message) w = caught env r course message w
  finish env r course remaining reset_at (returns result) w = (
    record {
      status = ok;
      body = signature result;
      rate_limit = some (remaining, ceil_div (sub_ℕ reset_at 0) 1000);
    },
    logged course (success_entry env r) w,
  )

  unfoldable pub sign_keyed :
      Settings
      → Request
      → Course
      → (remaining : ℤ) → (reset_at : ℕ) → Result AnyStoredKey
      → World B
      → Response × World B
  unfolding caught sign_with_key finish
  sign_keyed env r course remaining reset_at (throws message) w = caught env r course message w
  sign_keyed env r course remaining reset_at (returns key) w =
      let (result, c) = sign_with_key env r course key w.cache in
      finish env r course remaining reset_at result (record w { cache = c })

  -- From the answers of the two calls on.
  unfoldable pub sign_limited :
      Settings
      → Request
      → Course
      → RateLimiter.Response
      → KeyStorage.Response
      → World B
      → Response × World B
  unfolding sign_keyed stored_key
  sign_limited env r course limit answer w =
      if not (is_ok limit.status)
      then (refusal service_unavailable "Service temporarily unavailable" rate_limit_error, w)
      else elim limit.body [
        | RateLimiter.result (allowed remaining reset_at) ↦
            sign_keyed env r course remaining reset_at (stored_key B answer) w
        | RateLimiter.result (denied reset_at) ↦ (
          record {
            status = too_many_requests;
            body =
                problem "Rate limit exceeded" rate_limited
                  (some (ceil_div (sub_ℕ reset_at course.answered_at) 1000));
            rate_limit = none;
          },
          w,
        )
        -- `/consume` answers with no other body
        | _ ↦ caught env r course "" w
      ]

  unfoldable pub limiter_called : Request → Course → Bool → World B → RateLimiter.Response × World B
  unfolding fetch_rate_limiter
  limiter_called r course reached w =
      let (limit, buckets) =
        fetch_rate_limiter B r.variables.identity course.limited_at course.refused_at w.buckets in
      (limit, if reached then record w { buckets = buckets } else w)

  unfoldable pub call_both : Settings → Request → Course → World B → Response × World B
  unfolding limiter_called fetch_key sign_limited caught
  call_both env r course w = elim course.calls [
    | rejected message reached ↦ caught env r course message (limiter_called r course reached w).1
    | answered ↦
        let (limit, w') = limiter_called r course true w in
        sign_limited env r course limit (fetch_key B (key_id_param env r) w.keys) w'
  ]

  -- The `try` of the handler; the identifier that `createKeyId` makes is not used.
  unfoldable pub tried : Settings → Request → Course → World B → Response × World B
  unfolding create_key_id caught call_both
  tried env r course w = elim (create_key_id (key_id_param env r)) [
    | throws message ↦ caught env r course message w
    | returns _ ↦ call_both env r course w
  ]

  -- `POST /sign`
  unfoldable pub sign : Settings → Request → Course → World B → Response × World B
  unfolding tried
  sign env r course w =
      if truthy r.commit_data
      then if is_listed r.variables.allowed_key_ids (key_id_param env r)
        then tried env r course w
        else (
          refusal forbidden ("Token is not allowed to sign with key " +s key_id_param env r)
              invalid_request,
          w,
        )
      else (refusal bad_request "No commit data provided" invalid_request, w)
