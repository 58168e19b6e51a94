-- ===== src/Sign/Steady.antt =====
-- `POST /sign` with two caches of which signing makes the same: the answer is the same, and what holds of the cache
-- is kept.
use gpg_signing_service.Common.{
  ℕ, String, ◌≡◌, refl, true, false, inl, inr, Bool-cases, contains, truthy,
}
use gpg_signing_service.Common.Int.{ℤ}
use gpg_signing_service.Common.Result.{Result, returns, throws, Result-cases}
use gpg_signing_service.Http.{is_ok}
use gpg_signing_service.Keys.{AnyStoredKey, create_key_id}
use gpg_signing_service.RateLimiter
use gpg_signing_service.RateLimiter.{RateLimitResult, allowed, denied}
use gpg_signing_service.KeyStorage
use gpg_signing_service.KeyCache.{DecryptedKeyCache}
use gpg_signing_service.SignRequest.{
  Course, Calls, answered, rejected, Settings, Request, Response, key_id_param, is_listed,
}
use gpg_signing_service.Service.{Backend, World, stored_key, fetch_key}
use gpg_signing_service.Sign.{
  caught, finish, sign_keyed, sign_limited, sign_with_key, limiter_called, call_both, tried, sign,
}

module _ (B : Backend) (Q : DecryptedKeyCache B.openpgp.PrivateKey → Type 0) where
  abbrev Cache : Type 0
  Cache = DecryptedKeyCache B.openpgp.PrivateKey

  abbrev pub swap : Cache → World B → World B
  swap c w = record w { cache = c }

  -- Two runs from worlds that differ in the cache: one answer, and the first keeps the keys and `Q`.
  abbrev pub Steady : World B → Response × World B → Response × World B → Type 0
  Steady w p p0 = (p.0 ≡ p0.0) × ((p.1.keys ≡ w.keys) × Q p.1.cache)

  module _ (env : Settings) (r : Request) (course : Course) where
    -- Signing with the key makes `plain`, whatever the cache, and keeps `Q`.
    abbrev pub Good : (AnyStoredKey → Result String) → AnyStoredKey → Type 0
    Good plain key =
        (c : Cache)
        → Q c
        → ((sign_with_key B env r course key c).0 ≡ plain key)
          × Q (sign_with_key B env r course key c).1

    module _ (c0 : Cache) (q0 : Q c0) where
      caught-Steady :
          (message : String) (w : World B)
          → Q w.cache
          → Steady w (caught B env r course message w) (caught B env r course message (swap c0 w))
      unfolding caught
      caught-Steady message w q = elim (Bool-cases (contains message "Rate limiter")) [
        | inl limiter ↦ rw (limiter, caught) (refl, (refl, q))
        | inr other ↦ rw (other, caught) (refl, (refl, q))
      ]

      finish-Steady :
          (remaining : ℤ) (reset_at : ℕ) (result : Result String) (w : World B)
          → Q w.cache
          → (c1 : Cache)
          → ((finish B env r course remaining reset_at result w).0
              ≡ (finish B env r course remaining reset_at result (swap c1 w)).0)
            × (((finish B env r course remaining reset_at result w).1.keys ≡ w.keys)
                × Q (finish B env r course remaining reset_at result w).1.cache)
      unfolding finish caught
      finish-Steady remaining reset_at (returns s) w q c1 = (refl, (refl, q))
      finish-Steady remaining reset_at (throws message) w q c1 =
          elim (Bool-cases (contains message "Rate limiter")) [
            | inl limiter ↦ rw (limiter, caught) (refl, (refl, q))
            | inr other ↦ rw (other, caught) (refl, (refl, q))
          ]

      module _ (plain : AnyStoredKey → Result String) where
        sign_keyed-Steady :
            (remaining : ℤ) (reset_at : ℕ) (key : Result AnyStoredKey) (w : World B)
            → ((k : AnyStoredKey) → key ≡ returns k → Good plain k)
            → Q w.cache
            → Steady w
                (sign_keyed B env r course remaining reset_at key w)
                (sign_keyed B env r course remaining reset_at key (swap c0 w))
        unfolding sign_keyed
        sign_keyed-Steady remaining reset_at (throws message) w good q = caught-Steady message w q
        sign_keyed-Steady remaining reset_at (returns k) w good q =
            let (e, q') = good k refl w.cache q in
            let (e0, _) = good k refl c0 q0 in
            let c = (sign_with_key B env r course k w.cache).1 in
            let c1 = (sign_with_key B env r course k c0).1 in
            rw (e, e0) (finish-Steady remaining reset_at (plain k) (swap c w) q' c1)

        limited_body :
            (limit : RateLimiter.Response) (body : RateLimiter.Body) (answer : KeyStorage.Response)
            (w : World B)
            → ((k : AnyStoredKey) → stored_key B answer ≡ returns k → Good plain k)
            → Q w.cache
            → is_ok limit.status ≡ true
            → Steady w
                (sign_limited B env r course (record limit { body = body }) answer w)
                (sign_limited B env r course (record limit { body = body }) answer (swap c0 w))
        unfolding sign_limited
        limited_body limit (RateLimiter.result (allowed remaining reset_at)) answer w good q h =
            rw (h, sign_limited)
              (sign_keyed-Steady remaining reset_at (stored_key B answer) w good q)
        limited_body limit (RateLimiter.result (denied reset_at)) answer w good q h =
            rw (h, sign_limited) (refl, (refl, q))
        limited_body limit (RateLimiter.error e) answer w good q h =
            rw (h, sign_limited) (caught-Steady "" w q)
        limited_body limit (RateLimiter.plain e) answer w good q h =
            rw (h, sign_limited) (caught-Steady "" w q)
        limited_body limit RateLimiter.success answer w good q h =
            rw (h, sign_limited) (caught-Steady "" w q)

        sign_limited-Steady :
            (limit : RateLimiter.Response) (answer : KeyStorage.Response) (w : World B)
            → ((k : AnyStoredKey) → stored_key B answer ≡ returns k → Good plain k)
            → Q w.cache
            → Steady w
                (sign_limited B env r course limit answer w)
                (sign_limited B env r course limit answer (swap c0 w))
        unfolding sign_limited
        sign_limited-Steady limit answer w good q = elim (Bool-cases (is_ok limit.status)) [
          | inl h ↦ limited_body limit limit.body answer w good q h
          | inr h ↦ rw (h, sign_limited) (refl, (refl, q))
        ]

        module _ (w : World B)
            (good : (k : AnyStoredKey)
              → stored_key B (fetch_key B (key_id_param env r) w.keys) ≡ returns k
              → Good plain k)
            (q : Q w.cache) where
          called-Steady :
              (calls : Calls)
              → course.calls ≡ calls
              → Steady w (call_both B env r course w) (call_both B env r course (swap c0 w))
          unfolding call_both limiter_called
          called-Steady answered e =
              let (limit, w') = limiter_called B r course true w in
              rw (e, call_both)
                (sign_limited-Steady limit (fetch_key B (key_id_param env r) w.keys) w' good q)
          called-Steady (rejected message true) e =
              rw (e, call_both) (caught-Steady message (limiter_called B r course true w).1 q)
          called-Steady (rejected message false) e = rw (e, call_both) (caught-Steady message w q)

          tried-Steady : Steady w (tried B env r course w) (tried B env r course (swap c0 w))
          unfolding tried
          tried-Steady = elim (Result-cases (create_key_id (key_id_param env r))) [
            | inl (id, h) ↦ rw (h, tried) (called-Steady course.calls refl)
            | inr (m, h) ↦ rw (h, tried) (caught-Steady m w q)
          ]

          pub sign-Steady : Steady w (sign B env r course w) (sign B env r course (swap c0 w))
          unfolding sign
          sign-Steady = elim (Bool-cases (truthy r.commit_data)) [
            | inr empty ↦ rw (empty, sign) (refl, (refl, q))
            | inl given ↦
                elim (Bool-cases (is_listed r.variables.allowed_key_ids (key_id_param env r))) [
                  | inl listed ↦ rw (given, listed, sign) tried-Steady
                  | inr unlisted ↦ rw (given, unlisted, sign) (refl, (refl, q))
                ]
          ]
