-- ===== src/Sign/Tests.antt =====
-- The signing endpoint on a concrete request, with and without a token in the bucket.
use gpg_signing_service.Common.{◌≡◌, refl, false, none}
use gpg_signing_service.Http.{service_unavailable}
use gpg_signing_service.Storage.Assoc.{assoc}
use gpg_signing_service.Keys.{KeyData, pgp}
use gpg_signing_service.RateLimiter
use gpg_signing_service.RateLimiter.{TokenBucket, bucket_key, has_token, spend}
use gpg_signing_service.Oidc.Tests.{claims}
use gpg_signing_service.Service.Sample.{backend, world}
use gpg_signing_service.SignRequest.{Course, answered, Settings, Request, refusal}
use gpg_signing_service.Errors.{rate_limit_error}
use gpg_signing_service.Sign.{sign}
use gpg_signing_service.Sign.Audited.{audit_of, sign-audit}
use gpg_signing_service.Sign.Limited.{sign-exhausted}

abbrev pub settings : Settings
settings = record { key_id = "A1B2C3D4E5F60718"; key_passphrase = "pass" }

abbrev pub request : Request
request = record {
  request_id = "r1";
  variables = record { oidc_claims = claims; identity = "ci"; allowed_key_ids = none };
  key_id = none;
  commit_data = "tree";
}

abbrev pub course : Course
course = record {
  calls = answered;
  limited_at = 1000;
  refused_at = 1000;
  answered_at = 1001;
  cache_read_at = 1002;
  cached_at = 1003;
  recording = record { id = "a1"; timestamp = "2025"; fails = false };
}

sign-audit_example :
    (sign backend settings request course (world 90000)).1.audit
    ≡ audit_of backend settings request course
        (sign backend settings request course (world 90000)).0.body
        (world 90000).audit
sign-audit_example = sign-audit backend settings request course (world 90000)

sign-exhausted_example :
    (sign backend settings request course (world 30000)).0
    ≡ refusal service_unavailable "Service temporarily unavailable" rate_limit_error
unfolding world assoc gpg_signing_service.Keys.create_key_id RateLimiter.refill
    gpg_signing_service.Keys.to_upper
sign-exhausted_example =
    sign-exhausted backend settings request course (world 30000) "A1B2C3D4E5F60718" refl refl refl
      refl refl
