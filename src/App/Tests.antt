-- ===== src/App/Tests.antt =====
-- The endpoints on the concrete service.
use gpg_signing_service.Common.{
  ℕ, String, ◌≡◌, ◌≢◌, refl, true, false, Option, none, some, [], ◌∷◌, ◌+s◌, if◌then◌else◌, arith,
}
use gpg_signing_service.Common.Int.{pos}
use gpg_signing_service.Http.{service_unavailable}
use gpg_signing_service.Storage.Assoc.{assoc}
use gpg_signing_service.Dates.Unary.{unary}
use gpg_signing_service.RateLimiter
use gpg_signing_service.RateLimiter.{TokenBucket, bucket_key, spend}
use gpg_signing_service.KeyStorage
use gpg_signing_service.Oidc.Tests.{platform, net}
use gpg_signing_service.Oidc.Tests as OidcTests
use gpg_signing_service.Auth.{Variables, caller_auth, next}
use gpg_signing_service.Auth.Tests.{no_faults, codes, comparison, rows, policy, bearer}
use gpg_signing_service.Auth.Caller.{policy_variables}
use gpg_signing_service.ServiceTokens.{TokenRow, hash_token}
use gpg_signing_service.Security.{admin_rate_limit}
use gpg_signing_service.Errors.{Outcome, rate_limit_error}
use gpg_signing_service.Service.{World}
use gpg_signing_service.Service.Sample.{backend, world}
use gpg_signing_service.SignRequest.{Request, Response, key_id_param, is_listed}
use gpg_signing_service.Sign.Tests.{settings, request, course}
use gpg_signing_service.Sign.{sign}
use gpg_signing_service.Sign.Limited.{bucket_now, payer}
use gpg_signing_service.KeyStorage
use gpg_signing_service.KeyRoutes.Existing.{delete_key}
use gpg_signing_service.KeyRoutes.Tests.{upload_course}
use gpg_signing_service.App.{served, limited, is_served, sign_endpoint, admin_endpoint}
use gpg_signing_service.App.Guarded.{
  has_admin_token, limited_world, admin_endpoint-unserved, admin_endpoint-served,
  sign_endpoint-signed,
}

-- An administrator deletes the only key.
abbrev deletion : World backend → Outcome KeyStorage.Body × World backend
deletion w = delete_key backend "r1" upload_course "A1B2C3D4E5F60718" w

other_header : some "Bearer guess" ≢ some ("Bearer " +s "secret")
other_header e = cc

admin_endpoint-unserved_example :
    (is_served
        (admin_endpoint backend deletion comparison "secret" "ip" false 10 10 10
          (some "Bearer guess")
          (world 0)).0
      ≡ false)
    × ((admin_endpoint backend deletion comparison "secret" "ip" false 10 10 10
          (some "Bearer guess")
          (world 0)).1
        ≡ record (world 0) {
          admin_buckets =
              (admin_rate_limit (assoc TokenBucket) "ip" false 10 10 10 (world 0).admin_buckets).1;
        })
admin_endpoint-unserved_example =
    admin_endpoint-unserved backend deletion comparison "secret" "ip" false 10 10 10 (world 0)
      (some "Bearer guess") other_header

admin_endpoint-served_example :
    admin_endpoint backend deletion comparison "secret" "ip" false 10 10 10
      (some ("Bearer " +s "secret"))
      (world 0)
    ≡ (if has_admin_token backend deletion comparison "secret" "ip" false 10 10 10 (world 0)
        then (
          served
              (deletion (
                limited_world backend deletion comparison "secret" "ip" false 10 10 10
                  (world 0))).0,
          (deletion
              (limited_world backend deletion comparison "secret" "ip" false 10 10 10 (world 0))).1,
        )
        else (
          limited service_unavailable rate_limit_error none,
          limited_world backend deletion comparison "secret" "ip" false 10 10 10 (world 0),
        ))
admin_endpoint-served_example =
    admin_endpoint-served backend deletion comparison "secret" "ip" false 10 10 10 (world 0)

-- The world in which the caller `ci` has a token, and a bucket of one and a half.
unfoldable caller_world : World backend
unfolding assoc world
caller_world = record (world 0) {
  tokens = rows;
  buckets =
      ("bucket:urn:gpg-signing-service:token:ci", record { tokens = pos 90000; last_refill = 1000 })
      ∷ [];
}

abbrev as_caller : Request
as_caller = record request { variables = policy_variables 1 policy }

abbrev answer : Response
answer =
    (sign backend settings as_caller course (record caller_world {
      tokens =
          (caller_auth platform OidcTests.settings unary codes 1000 no_faults (some bearer)
            (net, rows)).1.1;
    })).0

sign_endpoint-signed_example :
    (v : Variables) × (((caller_auth platform OidcTests.settings unary codes 1000 no_faults
          (some bearer)
          (caller_world.net, caller_world.tokens)).0
        ≡ next v)
      × ((is_listed v.allowed_key_ids (key_id_param settings request) ≡ true)
          × ((assoc TokenBucket).get
                (bucket_key (payer backend settings (record request { variables = v }) course))
                (sign_endpoint backend platform OidcTests.settings unary codes 1000 no_faults
                  (some bearer)
                  settings
                  request
                  course
                  caller_world).1.buckets
              ≡ some (
                  spend (
                    bucket_now backend settings
                      (record request { variables = v })
                      course
                      caller_world)))))
unfolding caller_world sign_endpoint gpg_signing_service.ServiceTokens.verify_service_token
    hash_token codes RateLimiter.consume_token gpg_signing_service.ServiceTokens.parse_key_ids
    RateLimiter.refill gpg_signing_service.Keys.create_identity RateLimiter.consume_answer
    KeyStorage.get_key gpg_signing_service.Common.utf16_length
sign_endpoint-signed_example =
    sign_endpoint-signed backend platform OidcTests.settings unary codes 1000 no_faults
      (some bearer) settings request course caller_world answer refl refl
