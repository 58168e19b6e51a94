-- ===== src/Security.antt =====
-- middleware/security.ts: CORS (`productionCors`) and the rate limit of the administration
-- (`adminRateLimit`).
pub mod Origins
pub mod FailClosed
pub mod Headers
pub mod Answers
mod Tests
use gpg_signing_service.Common.{
  ℕ, String, Bool, true, false, Option, none, some, List, [], ◌∷◌, ◌&&◌, ◌||◌, not, ◌==◌,
  if◌then◌else◌, includes, truthy, split, trim, or_text, ◌+s◌,
}
use gpg_signing_service.Common.Int.{ℤ, sub_ℕ, ceil_div}
use gpg_signing_service.Http.{Status, is_ok, no_content, too_many_requests, service_unavailable}
use gpg_signing_service.Storage.{Storage}
use gpg_signing_service.RateLimiter
use gpg_signing_service.RateLimiter.{TokenBucket, allowed, denied}
use gpg_signing_service.Errors.{ErrorCode, rate_limited, rate_limit_error}

-- What the CORS middleware does: it answers a preflight request with 204, or goes on and adds to the
-- answer that follows; with the origin that is allowed, if one is.
pub data Cors : Type 0 where
  preflight : Option String → Cors
  continued : Option String → Cors

-- `c.env.ALLOWED_ORIGINS?.split(",") ?? []`
abbrev pub allowed_origins : Option String → List String
allowed_origins none = []
allowed_origins (some origins) = split b',' origins

abbrev pub is_empty : List String → Bool
is_empty [] = true
is_empty (_ ∷ _) = false

abbrev pub has_origin : List String → Option String → Bool
has_origin origins none = false
has_origin origins (some origin) = includes origins origin

unfoldable pub production_cors :
    (setting : Option String) (method : String) (origin : Option String) → Cors
unfolding split
production_cors setting method origin =
    let origins = allowed_origins setting in
    let answer = if is_empty origins || has_origin origins origin then origin else none in
    if method == "OPTIONS" then preflight answer else continued answer

-- What the rate limit of the administration does: it goes on with the headers of the remaining requests
-- and of the reset, or refuses with a status, a code and `retryAfter`.
pub data Admission : Type 0 where
  admitted : ℤ → ℤ → Admission
  refused : Status → ErrorCode → Option ℤ → Admission

abbrev first_part : List String → String
first_part [] = ""
first_part (p ∷ _) = p

-- `X-Forwarded-For`, up to its first comma
abbrev forwarded_ip : Option String → String
forwarded_ip none = ""
forwarded_ip (some ips) = trim (first_part (split b',' ips))

unfoldable pub client_ip : (connecting forwarded : Option String) → String
unfolding split trim
client_ip connecting forwarded =
    if truthy (or_text connecting "")
    then or_text connecting ""
    else if truthy (forwarded_ip forwarded)
    then forwarded_ip forwarded
    else "unknown"

abbrev pub admin_identity : String → String
admin_identity ip = "admin:" +s ip

-- the answer of the `catch`: the limiter fails closed
abbrev pub unavailable : Admission
unavailable = refused service_unavailable rate_limit_error none

unfoldable pub admission : (answered_at : ℕ) → RateLimiter.Response → Admission
admission answered_at limit = if not (is_ok limit.status) then unavailable else elim limit.body [
  | RateLimiter.result (allowed remaining reset_at) ↦
      admitted remaining (ceil_div (sub_ℕ reset_at 0) 1000)
  | RateLimiter.result (denied reset_at) ↦
      refused too_many_requests rate_limited (some (ceil_div (sub_ℕ reset_at answered_at) 1000))
  -- `/consume` answers with no other body
  | _ ↦ unavailable
]

module _ (S : Storage TokenBucket) where
  -- `call_fails`: the call of the Durable Object rejects before it is served
  unfoldable pub admin_rate_limit :
      (ip : String) (call_fails : Bool) (now later answered_at : ℕ) → S.Store → Admission × S.Store
  unfolding RateLimiter.fetch admission
  admin_rate_limit ip call_fails now later answered_at s =
      let (limit, s') =
        RateLimiter.fetch S
          (record { path = "/consume"; method = "GET"; identity = some (admin_identity ip) }) now
          later s in
      if call_fails then (unavailable, s) else (admission answered_at limit, s')
