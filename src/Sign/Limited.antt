-- ===== src/Sign/Limited.antt =====
-- `POST /sign` and the rate limiter.
use gpg_signing_service.Common.{
  ℕ, String, ◌≡◌, ◌≢◌, refl, ◌∙◌, Bool, true, false, some, arith, inl, inr, Bool-cases, truthy, ap,
  or_text, eq_iff,
}
use gpg_signing_service.Common.Int.{ℤ, floor_div}
use gpg_signing_service.Common.Result.{Result, returns, throws, Result-cases}
use gpg_signing_service.Http.{Status, ok, too_many_requests, service_unavailable}
use gpg_signing_service.Keys.{AnyStoredKey, create_key_id}
use gpg_signing_service.RateLimiter
use gpg_signing_service.RateLimiter.{
  TokenBucket, window_ms, reset_at, RateLimitResult, allowed, denied, refill, has_token, spend,
  bucket_key, consume_answer, consume_token,
}
use gpg_signing_service.KeyStorage
use gpg_signing_service.SignRequest.{
  Course, Calls, answered, rejected, Settings, Request, Response, refusal, key_id_param, is_listed,
}
use gpg_signing_service.Service.{Backend, World, stored_key, fetch_rate_limiter, fetch_key}
use gpg_signing_service.Errors.{rate_limit_error}
use gpg_signing_service.Sign.{
  caught, finish, sign_keyed, sign_limited, sign_with_key, limiter_called, call_both, tried, sign,
}

-- Whether a status says that a signature was made, and whether it says that the limit is exceeded.
abbrev pub is_signed : Status → Bool
is_signed ok = true
is_signed _ = false

abbrev pub is_limited : Status → Bool
is_limited too_many_requests = true
is_limited _ = false

pub refused : (b : Bool) → b ≡ true → b ≡ false → ⊥
refused b h k = ground (arith, h, k)

module _ (B : Backend) where
  open B use {bucket_storage}

  module _ (env : Settings) (r : Request) (course : Course) where
    pub caught-status :
        (message : String) (w : World B)
        → (is_signed (caught B env r course message w).0.status ≡ false)
          × (is_limited (caught B env r course message w).0.status ≡ false)
          × ((caught B env r course message w).1.buckets ≡ w.buckets)
    unfolding caught
    caught-status message w = ground arith

    finish-status :
        (remaining : ℤ) (reset_at : ℕ) (result : Result String) (w : World B)
        → (is_limited (finish B env r course remaining reset_at result w).0.status ≡ false)
          × ((finish B env r course remaining reset_at result w).1.buckets ≡ w.buckets)
    unfolding finish
    finish-status remaining reset_at (throws message) w =
        let (_, limited, kept) = caught-status message w in (limited, kept)
    finish-status remaining reset_at (returns result) w = ground arith

    sign_keyed-status :
        (remaining : ℤ) (reset_at : ℕ) (key : Result AnyStoredKey) (w : World B)
        → (is_limited (sign_keyed B env r course remaining reset_at key w).0.status ≡ false)
          × ((sign_keyed B env r course remaining reset_at key w).1.buckets ≡ w.buckets)
    unfolding sign_keyed
    sign_keyed-status remaining reset_at (throws message) w =
        let (_, limited, kept) = caught-status message w in (limited, kept)
    sign_keyed-status remaining reset_at (returns key) w =
        let (result, c) = sign_with_key B env r course key w.cache in
        finish-status remaining reset_at result (record w { cache = c })

    abbrev pub limit_of : TokenBucket → RateLimiter.Response
    limit_of b = consume_answer course.refused_at b

    sign_limited-refused :
        (b : TokenBucket) (answer : KeyStorage.Response) (w : World B)
        → has_token b ≡ false
        → sign_limited B env r course (limit_of b) answer w
          ≡ (refusal service_unavailable "Service temporarily unavailable" rate_limit_error, w)
    unfolding sign_limited consume_answer
    sign_limited-refused b answer w h = rw (h, sign_limited, consume_answer) refl

    pub sign_limited-status :
        (b : TokenBucket) (answer : KeyStorage.Response) (w : World B)
        → (is_limited (sign_limited B env r course (limit_of b) answer w).0.status ≡ false)
          × ((sign_limited B env r course (limit_of b) answer w).1.buckets ≡ w.buckets)
    unfolding sign_limited consume_answer
    sign_limited-status b answer w = elim (Bool-cases (has_token b)) [
      | inr h ↦ rw (sign_limited-refused b answer w h) (refl, refl)
      | inl h ↦
          rw (h, sign_limited, consume_answer)
            (sign_keyed-status (floor_div (spend b).tokens window_ms) (reset_at b)
              (stored_key B answer) w)
    ]

    -- A signature is only made if the bucket had a token.
    pub sign_limited-token :
        (b : TokenBucket) (answer : KeyStorage.Response) (w : World B)
        → is_signed (sign_limited B env r course (limit_of b) answer w).0.status ≡ true
        → has_token b ≡ true
    sign_limited-token b answer w signed = elim (Bool-cases (has_token b)) [
      | inl h ↦ h
      | inr h ↦ absurd (
          refused (is_signed (sign_limited B env r course (limit_of b) answer w).0.status) signed
            (rw (sign_limited-refused b answer w h) refl))
    ]

    -- The identity whose bucket pays: `/consume` replaces an empty one.
    abbrev pub payer : String
    payer = or_text (some r.variables.identity) "default"

    abbrev pub bucket_now : World B → TokenBucket
    bucket_now w = refill (bucket_storage.get (bucket_key payer) w.buckets) course.limited_at

    consumed_answer :
        (w : World B)
        → (fetch_rate_limiter B r.variables.identity course.limited_at course.refused_at
            w.buckets).0
          ≡ limit_of (bucket_now w)
    unfolding fetch_rate_limiter RateLimiter.fetch consume_token
    consumed_answer w = ground arith

    pub consumed_bucket :
        (w : World B)
        → has_token (bucket_now w) ≡ true
        → bucket_storage.get
            (bucket_key payer)
            (fetch_rate_limiter B r.variables.identity course.limited_at course.refused_at
              w.buckets).1
          ≡ some (spend (bucket_now w))
    unfolding fetch_rate_limiter RateLimiter.fetch consume_token
    consumed_bucket w h =
        let b = bucket_now w in
        let s' = bucket_storage.put (bucket_key payer) b w.buckets in
        rw h (
          bucket_storage.get-put (bucket_key payer) (bucket_key payer) (spend b) s'
          ∙ ground (arith, eq_iff (bucket_key payer) (bucket_key payer)))

    unfoldable pub after_calls : World B → World B
    unfolding limiter_called
    after_calls w = (limiter_called B r course true w).1

    pub call_both-answered :
        (w : World B)
        → course.calls ≡ answered
        → call_both B env r course w
          ≡ sign_limited B env r course
              (limit_of (bucket_now w))
              (fetch_key B (key_id_param env r) w.keys)
              (after_calls w)
    unfolding call_both limiter_called after_calls
    call_both-answered w e =
        rw (e, call_both)
          (ap
            (λ limit.
              sign_limited B env r course limit (fetch_key B (key_id_param env r) w.keys)
                (after_calls w))
            (consumed_answer w))

    -- If a caller who may use a well-formed key id has no token left and both Durable Objects answer,
    -- the endpoint answers 503 with RATE_LIMIT_ERROR.
    pub sign-exhausted :
        (w : World B) (id : String)
        → truthy r.commit_data ≡ true
        → is_listed r.variables.allowed_key_ids (key_id_param env r) ≡ true
        → create_key_id (key_id_param env r) ≡ returns id
        → course.calls ≡ answered
        → has_token (bucket_now w) ≡ false
        → (sign B env r course w).0
          ≡ refusal service_unavailable "Service temporarily unavailable" rate_limit_error
    unfolding sign tried
    sign-exhausted w id given listed valid calls empty =
        rw (given, listed, valid, sign, tried)
          (ap (λ (p : Response × World B). p.0)
            (call_both-answered w calls
              ∙ sign_limited-refused (bucket_now w) (fetch_key B (key_id_param env r) w.keys)
                  (after_calls w) empty))

    unlimited_calls :
        (calls : Calls) (w : World B)
        → course.calls ≡ calls
        → is_limited (call_both B env r course w).0.status ≡ false
    unfolding call_both
    unlimited_calls answered w e = rw (call_both-answered w e) (
        (sign_limited-status (bucket_now w) (fetch_key B (key_id_param env r) w.keys)
          (after_calls w)).0)
    unlimited_calls (rejected message reached) w e =
        let (_, unlimited, _) = caught-status message (limiter_called B r course reached w).1 in
        rw (e, call_both) unlimited

    unlimited_tried : (w : World B) → is_limited (tried B env r course w).0.status ≡ false
    unfolding tried
    unlimited_tried w = elim (Result-cases (create_key_id (key_id_param env r))) [
      | inl (id, h) ↦ rw (h, tried) (unlimited_calls course.calls w refl)
      | inr (m, h) ↦ let (_, unlimited, _) = caught-status m w in rw (h, tried) unlimited
    ]

    unlimited_sign : (w : World B) → is_limited (sign B env r course w).0.status ≡ false
    unfolding sign
    unlimited_sign w = elim (Bool-cases (truthy r.commit_data)) [
      | inr empty ↦ rw (empty, sign) refl
      | inl given ↦ elim (Bool-cases (is_listed r.variables.allowed_key_ids (key_id_param env r))) [
        | inl listed ↦ rw (given, listed, sign) (unlimited_tried w)
        | inr unlisted ↦ rw (given, unlisted, sign) refl
      ]
    ]

    -- The endpoint never answers 429, whatever the request and its course.
    pub sign-unlimited : (w : World B) → (sign B env r course w).0.status ≢ too_many_requests
    sign-unlimited w e =
        refused (is_limited (sign B env r course w).0.status) (ap is_limited e) (unlimited_sign w)
