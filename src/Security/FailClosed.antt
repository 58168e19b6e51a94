-- ===== src/Security/FailClosed.antt =====
-- The rate limit of the administration.
use text.Mathlib.TextLemmas.{cons-append}
use gpg_signing_service.Common.{
  or_text, ℕ, String, ◌≡◌, refl, Bool, true, false, some, ◌&&◌, not, if◌then◌else◌, inl, inr,
  Bool-cases,
}
use gpg_signing_service.Common.Int.{floor_div, sub_ℕ, ceil_div}
use gpg_signing_service.Storage.{Storage}
use gpg_signing_service.RateLimiter
use gpg_signing_service.RateLimiter.{
  TokenBucket, bucket_key, refill, has_token, spend, window_ms, reset_at, consume_answer,
  consume_token,
}
use gpg_signing_service.RateLimiter.Answers.{consume_token-answer}
use gpg_signing_service.Security.{
  admitted, unavailable, admission, admin_identity, admin_rate_limit,
}

admission-consume_answer :
    (answered_at later : ℕ) (b : TokenBucket)
    → admission answered_at (consume_answer later b) ≡ (
        if has_token b
        then admitted (floor_div (spend b).tokens window_ms) (ceil_div (sub_ℕ (reset_at b) 0) 1000)
        else unavailable)
unfolding admission consume_answer
admission-consume_answer answered_at later b = elim (Bool-cases (has_token b)) [
  | inl h ↦ rw (h, admission, consume_answer) refl
  | inr h ↦ rw (h, admission, consume_answer) refl
]

admin_identity_truthy :
    (ip : String) → or_text (some (admin_identity ip)) "default" ≡ admin_identity ip
admin_identity_truthy ip = rw (cons-append "a" "dmin:" ip) refl

-- A request for the administration goes on exactly if the rate limiter could be called and the bucket
-- of its client held a token; every other request is answered 503, also if the limit is exceeded.
pub admin_rate_limit-closed :
    (S : Storage TokenBucket) (ip : String) (call_fails : Bool) (now later answered_at : ℕ)
    (s : S.Store)
    → (admin_rate_limit S ip call_fails now later answered_at s).0 ≡ (
        if not call_fails && has_token (refill (S.get (bucket_key (admin_identity ip)) s) now)
        then admitted
            (floor_div
              (spend (refill (S.get (bucket_key (admin_identity ip)) s) now)).tokens
              window_ms)
            (ceil_div
              (sub_ℕ (reset_at (refill (S.get (bucket_key (admin_identity ip)) s) now)) 0)
              1000)
        else unavailable)
unfolding admin_rate_limit RateLimiter.fetch consume_token
admin_rate_limit-closed S ip true now later answered_at s = refl
admin_rate_limit-closed S ip false now later answered_at s =
    rw (admin_identity_truthy ip, consume_token-answer S (admin_identity ip) now later s)
      (admission-consume_answer answered_at later
        (refill (S.get (bucket_key (admin_identity ip)) s) now))
