-- ===== src/Sign/Ends.antt =====
-- How a run of `POST /sign` can end.
use gpg_signing_service.Common.{
  ℕ, String, ◌≡◌, refl, some, none, ◌+s◌, true, false, inl, inr, Bool-cases, truthy,
}
use gpg_signing_service.Common.Int.{ℤ, sub_ℕ, ceil_div}
use gpg_signing_service.Common.Result.{Result, returns, throws, Result-cases}
use gpg_signing_service.Http.{is_ok, bad_request, forbidden, too_many_requests, service_unavailable}
use gpg_signing_service.KeyCache.{DecryptedKeyCache}
use gpg_signing_service.Errors.{invalid_request, rate_limit_error, rate_limited}
use gpg_signing_service.Keys.{AnyStoredKey, create_key_id}
use gpg_signing_service.RateLimiter
use gpg_signing_service.RateLimiter.{allowed, denied}
use gpg_signing_service.KeyStorage
use gpg_signing_service.SignRequest.{
  Course, Calls, answered, rejected, Settings, Request, Response, key_id_param, is_listed, refusal,
  problem,
}
use gpg_signing_service.Service.{Backend, World, stored_key, fetch_key}
use gpg_signing_service.Sign.{
  caught, finish, sign_keyed, sign_limited, sign_with_key, limiter_called, call_both, tried, sign,
}

module _ (B : Backend) (env : Settings) (r : Request) (course : Course) where
  abbrev unavailable : Response
  unavailable = refusal service_unavailable "Service temporarily unavailable" rate_limit_error

  abbrev too_many : ℕ → Response
  too_many reset_at = record {
    status = too_many_requests;
    body =
        problem "Rate limit exceeded" rate_limited
          (some (ceil_div (sub_ℕ reset_at course.answered_at) 1000));
    rate_limit = none;
  }

  -- What holds of every way in which a request can end.
  pub record Ends (P : World B → Response × World B → Type 0) : Type 0 where
    pub on_caught : (message : String) (w : World B) → P w (caught B env r course message w)
    pub on_signed :
        (remaining : ℤ) (reset_at : ℕ) (text : String) (w : World B)
        → P w (finish B env r course remaining reset_at (returns text) w)
    pub on_denied : (reset_at : ℕ) (w : World B) → P w (too_many reset_at, w)
    pub on_unavailable : (w : World B) → P w (unavailable, w)
    pub on_unlisted :
        (w : World B)
        → P w (
          refusal forbidden
              ("Token is not allowed to sign with key " +s key_id_param env r)
              invalid_request,
          w,
        )
    pub on_empty :
        (w : World B) → P w (refusal bad_request "No commit data provided" invalid_request, w)
    -- the buckets and the cache have no part in it
    pub on_buckets :
        (w : World B) (buckets : B.bucket_storage.Store) (p : Response × World B)
        → P (record w { buckets = buckets }) p
        → P w p
    pub on_cache :
        (w : World B) (c : DecryptedKeyCache B.openpgp.PrivateKey) (p : Response × World B)
        → P (record w { cache = c }) p
        → P w p

  module _ (P : World B → Response × World B → Type 0) (ends : Ends P) where
    open ends use {
      on_caught, on_signed, on_denied, on_unavailable, on_unlisted, on_empty, on_buckets, on_cache,
    }

    finish_ends :
        (remaining : ℤ) (reset_at : ℕ) (result : Result String) (w : World B)
        → P w (finish B env r course remaining reset_at result w)
    unfolding finish
    finish_ends remaining reset_at (throws message) w = on_caught message w
    finish_ends remaining reset_at (returns text) w = on_signed remaining reset_at text w

    sign_keyed_ends :
        (remaining : ℤ) (reset_at : ℕ) (key : Result AnyStoredKey) (w : World B)
        → P w (sign_keyed B env r course remaining reset_at key w)
    unfolding sign_keyed
    sign_keyed_ends remaining reset_at (throws message) w = on_caught message w
    sign_keyed_ends remaining reset_at (returns key) w =
        let (result, c) = sign_with_key B env r course key w.cache in
        on_cache w c (finish B env r course remaining reset_at result (record w { cache = c }))
          (finish_ends remaining reset_at result (record w { cache = c }))

    limited_body_ends :
        (limit : RateLimiter.Response) (body : RateLimiter.Body) (answer : KeyStorage.Response)
        (w : World B)
        → is_ok limit.status ≡ true
        → P w (sign_limited B env r course (record limit { body = body }) answer w)
    unfolding sign_limited
    limited_body_ends limit (RateLimiter.result (allowed remaining reset_at)) answer w h =
        rw (h, sign_limited) (sign_keyed_ends remaining reset_at (stored_key B answer) w)
    limited_body_ends limit (RateLimiter.result (denied reset_at)) answer w h =
        rw (h, sign_limited) (on_denied reset_at w)
    limited_body_ends limit (RateLimiter.error e) answer w h = rw (h, sign_limited) (on_caught "" w)
    limited_body_ends limit (RateLimiter.plain e) answer w h = rw (h, sign_limited) (on_caught "" w)
    limited_body_ends limit RateLimiter.success answer w h = rw (h, sign_limited) (on_caught "" w)

    sign_limited_ends :
        (limit : RateLimiter.Response) (answer : KeyStorage.Response) (w : World B)
        → P w (sign_limited B env r course limit answer w)
    unfolding sign_limited
    sign_limited_ends limit answer w = elim (Bool-cases (is_ok limit.status)) [
      | inl h ↦ limited_body_ends limit limit.body answer w h
      | inr h ↦ rw (h, sign_limited) (on_unavailable w)
    ]

    called_ends :
        (w : World B) (calls : Calls) → course.calls ≡ calls → P w (call_both B env r course w)
    unfolding call_both limiter_called
    called_ends w answered e =
        let (limit, w') = limiter_called B r course true w in
        let answer = fetch_key B (key_id_param env r) w.keys in
        rw (e, call_both)
          (on_buckets w w'.buckets (sign_limited B env r course limit answer w')
            (sign_limited_ends limit answer w'))
    called_ends w (rejected message true) e =
        let w' = (limiter_called B r course true w).1 in
        rw (e, call_both)
          (on_buckets w w'.buckets (caught B env r course message w') (on_caught message w'))
    called_ends w (rejected message false) e = rw (e, call_both) (on_caught message w)

    tried_ends : (w : World B) → P w (tried B env r course w)
    unfolding tried
    tried_ends w = elim (Result-cases (create_key_id (key_id_param env r))) [
      | inl (id, e) ↦ rw (e, tried) (called_ends w course.calls refl)
      | inr (message, e) ↦ rw (e, tried) (on_caught message w)
    ]

    -- What holds of every way in which a request can end holds of the request.
    pub sign_ends : (w : World B) → P w (sign B env r course w)
    unfolding sign
    sign_ends w = elim (Bool-cases (truthy r.commit_data)) [
      | inr empty ↦ rw (empty, sign) (on_empty w)
      | inl given ↦ elim (Bool-cases (is_listed r.variables.allowed_key_ids (key_id_param env r))) [
        | inl listed ↦ rw (given, listed, sign) (tried_ends w)
        | inr other ↦ rw (given, other, sign) (on_unlisted w)
      ]
    ]
