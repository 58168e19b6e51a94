-- ===== src/Sign/Audited.antt =====
-- What the handler of `POST /sign` writes to the audit log.
use gpg_signing_service.Common.{
  ℕ, String, ◌≡◌, refl, true, false, List, arith, inl, inr, Bool-cases, contains, truthy,
}
use gpg_signing_service.Common.Int.{ℤ}
use gpg_signing_service.Common.Result.{Result, returns, throws, Result-cases}
use gpg_signing_service.Http.{is_ok}
use gpg_signing_service.Keys.{AnyStoredKey, create_key_id}
use gpg_signing_service.RateLimiter
use gpg_signing_service.RateLimiter.{TokenBucket, RateLimitResult, allowed, denied}
use gpg_signing_service.KeyStorage
use gpg_signing_service.SignRequest.{
  Course, Calls, answered, rejected, Settings, Request, Body, signature, problem, success_entry,
  failure_entry, is_not_found, key_id_param, is_listed,
}
use gpg_signing_service.Service.{Backend, World, stored_key, fetch_key}
use gpg_signing_service.Errors.{key_not_found, sign_error}
use gpg_signing_service.Audit.{AuditEntry, AuditRow, log_audit_event}
use gpg_signing_service.Sign.{
  caught, finish, sign_keyed, sign_limited, sign_with_key, limiter_called, call_both, tried, sign,
}

module _ (B : Backend) where
  abbrev W : Type 0
  W = World B

  module _ (env : Settings) (r : Request) (course : Course) where
    abbrev logged : AuditEntry → List AuditRow → List AuditRow
    logged entry rows = log_audit_event course.recording entry rows

    -- The audit log after an answer: one entry for a signature and for an error of the key or of the
    -- signature, and none for a refusal.
    abbrev pub audit_of : Body → List AuditRow → List AuditRow
    audit_of (signature s) entries = logged (success_entry env r) entries
    audit_of (problem message key_not_found _) entries =
        logged (failure_entry env r message) entries
    audit_of (problem message sign_error _) entries = logged (failure_entry env r message) entries
    audit_of (problem message _ _) entries = entries

    caught-audit :
        (message : String) (w : W)
        → (caught B env r course message w).1.audit
          ≡ audit_of (caught B env r course message w).0.body w.audit
    unfolding caught
    caught-audit message w = elim (Bool-cases (contains message "Rate limiter")) [
      | inl limiter ↦ rw (limiter, caught) refl
      | inr other ↦ elim (Bool-cases (is_not_found message)) [
        | inl missing ↦ ground (arith, other, missing)
        | inr broken ↦ ground (arith, other, broken)
      ]
    ]

    finish-audit :
        (remaining : ℤ) (reset_at : ℕ) (result : Result String) (w : W)
        → (finish B env r course remaining reset_at result w).1.audit
          ≡ audit_of (finish B env r course remaining reset_at result w).0.body w.audit
    unfolding finish
    finish-audit remaining reset_at (throws message) w = caught-audit message w
    finish-audit remaining reset_at (returns result) w = ground arith

    sign_keyed-audit :
        (remaining : ℤ) (reset_at : ℕ) (key : Result AnyStoredKey) (w : W)
        → (sign_keyed B env r course remaining reset_at key w).1.audit
          ≡ audit_of (sign_keyed B env r course remaining reset_at key w).0.body w.audit
    unfolding sign_keyed
    sign_keyed-audit remaining reset_at (throws message) w = caught-audit message w
    sign_keyed-audit remaining reset_at (returns key) w =
        let (result, c) = sign_with_key B env r course key w.cache in
        finish-audit remaining reset_at result (record w { cache = c })

    -- the answer of the rate limiter with its body apart
    abbrev with_body : RateLimiter.Response → RateLimiter.Body → RateLimiter.Response
    with_body limit body = record limit { body = body }

    limited_body :
        (limit : RateLimiter.Response) (body : RateLimiter.Body) (answer : KeyStorage.Response)
        (w : W)
        → is_ok limit.status ≡ true
        → (sign_limited B env r course (with_body limit body) answer w).1.audit
          ≡ audit_of (sign_limited B env r course (with_body limit body) answer w).0.body w.audit
    unfolding sign_limited
    limited_body limit (RateLimiter.result (allowed remaining reset_at)) answer w h =
        rw (h, sign_limited) (sign_keyed-audit remaining reset_at (stored_key B answer) w)
    limited_body limit (RateLimiter.result (denied reset_at)) answer w h = rw (h, sign_limited) refl
    limited_body limit (RateLimiter.error e) answer w h = rw (h, sign_limited) (caught-audit "" w)
    limited_body limit (RateLimiter.plain e) answer w h = rw (h, sign_limited) (caught-audit "" w)
    limited_body limit RateLimiter.success answer w h = rw (h, sign_limited) (caught-audit "" w)

    sign_limited-audit :
        (limit : RateLimiter.Response) (answer : KeyStorage.Response) (w : W)
        → (sign_limited B env r course limit answer w).1.audit
          ≡ audit_of (sign_limited B env r course limit answer w).0.body w.audit
    unfolding sign_limited
    sign_limited-audit limit answer w = elim (Bool-cases (is_ok limit.status)) [
      | inl h ↦ limited_body limit limit.body answer w h
      | inr h ↦ rw (h, sign_limited) refl
    ]

    called-audit :
        (calls : Calls) (w : W)
        → course.calls ≡ calls
        → (call_both B env r course w).1.audit
          ≡ audit_of (call_both B env r course w).0.body w.audit
    unfolding call_both limiter_called
    called-audit answered w e =
        let (limit, w') = limiter_called B r course true w in
        rw (e, call_both) (sign_limited-audit limit (fetch_key B (key_id_param env r) w.keys) w')
    called-audit (rejected message true) w e =
        rw (e, call_both) (caught-audit message (limiter_called B r course true w).1)
    called-audit (rejected message false) w e = rw (e, call_both) (caught-audit message w)

    tried-audit :
        (w : W)
        → (tried B env r course w).1.audit ≡ audit_of (tried B env r course w).0.body w.audit
    unfolding tried
    tried-audit w = elim (Result-cases (create_key_id (key_id_param env r))) [
      | inl (id, h) ↦ rw (h, tried) (called-audit course.calls w refl)
      | inr (m, h) ↦ rw (h, tried) (caught-audit m w)
    ]

    -- Whatever the request and its course, the audit log afterwards is the one before with what the
    -- answer calls for: the success entry for a signature, a failure entry with the message for an error
    -- of the key or of the signing, and nothing for a refusal; nothing if writing to the log fails.
    pub sign-audit :
        (w : W) → (sign B env r course w).1.audit ≡ audit_of (sign B env r course w).0.body w.audit
    unfolding sign
    sign-audit w = elim (Bool-cases (truthy r.commit_data)) [
      | inr empty ↦ rw (empty, sign) refl
      | inl given ↦ elim (Bool-cases (is_listed r.variables.allowed_key_ids (key_id_param env r))) [
        | inl listed ↦ rw (given, listed, sign) (tried-audit w)
        | inr unlisted ↦ rw (given, unlisted, sign) refl
      ]
    ]
