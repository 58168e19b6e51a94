-- ===== src/RateLimiter/Tests.antt =====
-- The rate limiter on concrete requests.
use gpg_signing_service.Common.{ℕ, ◌+◌, ◌-◌, ◌*◌, ◌≤◌, ◌≡◌, refl, arith, true, some, List, [], ◌∷◌}
use gpg_signing_service.Common.Int.{ℤ, pos, pos_part}
use gpg_signing_service.Http.{too_many_requests}
use gpg_signing_service.Storage.{Storage}
use gpg_signing_service.Storage.Assoc.{assoc}
use gpg_signing_service.RateLimiter.{
  TokenBucket, bucket_key, fetch, result, denied, window_ms, max_tokens, refill_rate, consume_token,
  consume_answer, refill,
}
use gpg_signing_service.RateLimiter.Refinement.{step, action, bucket-fetch}
use gpg_signing_service.RateLimiter.Window.{
  Event, granted_in, resets_in, granted_in-le-limit, body_allowed,
}
use gpg_signing_service.RateLimiter.Answers.{consume_request, refused-retry}

abbrev buckets : Storage TokenBucket
buckets = assoc TokenBucket

-- An identity that has used its bucket up at the time 1000, and one with half a token left.
used_up : buckets.Store
unfolding assoc
used_up =
    (bucket_key "ci", record { tokens = pos 30000; last_refill = 1000 })
    ∷ (bucket_key "admin", record { tokens = pos 600000; last_refill = 1000 })
    ∷ []

abbrev consume_at : ℕ → Event
consume_at t = record { request = consume_request "ci"; now = t; later = t }

abbrev history : List Event
history = consume_at 1000 ∷ consume_at 1600 ∷ []

bucket-fetch_example :
    buckets.get (bucket_key "ci") (fetch buckets (consume_request "ci") 1600 1600 used_up).1
    ≡ step (action "ci" (consume_request "ci")) 1600 (buckets.get (bucket_key "ci") used_up)
bucket-fetch_example = bucket-fetch buckets "ci" 1600 1600 used_up (consume_request "ci")

granted_in-le-limit_example :
    window_ms * granted_in buckets "ci" history used_up
    ≤ window_ms * max_tokens * (1 + resets_in buckets "ci" history) + refill_rate * (2000 - 1000)
unfolding assoc used_up
granted_in-le-limit_example =
    granted_in-le-limit buckets "ci" history 1000 2000 used_up (omega arith)
      (omega arith, (omega arith, omega arith))

refused-retry_example :
    ((consume_token buckets "ci" 1000 1000 used_up).0.status ≡ too_many_requests)
    × ((consume_token buckets "ci" 1000 1000 used_up).0.body ≡ result (denied (1000 + window_ms)))
    × ((seconds : ℤ) × ((consume_token buckets "ci" 1000 1000 used_up).0.retry_after ≡ some seconds)
        × (pos_part seconds ≤ 60))
    × (body_allowed
          (consume_token buckets "ci" 1600 1600
            (consume_token buckets "ci" 1000 1000 used_up).1).0.body
        ≡ true)
unfolding assoc used_up consume_token consume_answer refill
refused-retry_example =
    refused-retry buckets "ci" 1000 1000 1600 1600 used_up (omega arith) (omega arith) (omega arith)
      refl
