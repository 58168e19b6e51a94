-- ===== src/RateLimiter.antt =====
-- durable-objects/rate-limiter.ts and types/rate-limit.ts: a token bucket for each identity.
-- The source keeps `tokens` as a floating point number, and adds `elapsed / 60000 * 100` to it. Here
-- `tokens` counts 60000ths of a token, so that refilling adds `elapsed * 100` and is exact; the
-- rounding of floating point numbers is not modelled. The count is signed, since a clock that is set
-- back makes `elapsed` negative. The times are `Date.now()`, in milliseconds: `now` is what
-- `getBucket` reads, and `later` what the header of a refusal reads.
pub mod Refinement
mod Tests
pub mod Answers
pub mod Window
use gpg_signing_service.Common.{
  ℕ, ◌+◌, ◌*◌, String, Bool, true, false, Option, none, some, or_text, truthy, ◌+s◌, ◌==◌,
  if◌then◌else◌,
}
use gpg_signing_service.Common.Int.{
  ℤ, pos, ltb_ℤ, sub_ℕ, scale, ◌+ℤ◌, ◌-ℤ◌, min_ℤ, floor_div, ceil_div,
}
use gpg_signing_service.Http.{
  Status, ok, bad_request, not_found, method_not_allowed, too_many_requests,
}
use gpg_signing_service.Storage.{Storage}

pub record TokenBucket : Type 0 where
  pub tokens : ℤ
  pub last_refill : ℕ

-- `maxTokens`, `refillRate` and `windowMs`; a token is `window_ms` units.
abbrev pub max_tokens : ℕ
max_tokens = 100

abbrev pub refill_rate : ℕ
refill_rate = 100

abbrev pub window_ms : ℕ
window_ms = 60000

abbrev pub one_token : ℤ
one_token = pos window_ms

abbrev pub full_bucket : ℤ
full_bucket = pos (max_tokens * window_ms)

pub data RateLimitResult : Type 0 where
  -- the remaining requests, and the time of the reset
  allowed : ℤ → ℕ → RateLimitResult
  denied : ℕ → RateLimitResult

abbrev pub is_allowed : RateLimitResult → Bool
is_allowed (allowed remaining reset_at) = true
is_allowed (denied reset_at) = false

abbrev pub create_rate_limit_allowed : ℤ → ℕ → RateLimitResult
create_rate_limit_allowed remaining reset_at = allowed remaining reset_at

abbrev pub create_rate_limit_denied : ℕ → RateLimitResult
create_rate_limit_denied reset_at = denied reset_at

pub data Body : Type 0 where
  result : RateLimitResult → Body
  error : String → Body
  plain : String → Body
  success : Body

pub record Response : Type 0 where
  pub status : Status
  pub body : Body
  -- the header Retry-After, in seconds
  pub retry_after : Option ℤ

abbrev pub reply : Status → Body → Response
reply status body = record { status = status; body = body; retry_after = none }

pub record Request : Type 0 where
  pub path : String
  pub method : String
  pub identity : Option String

abbrev pub bucket_key : String → String
bucket_key identity = "bucket:" +s identity

-- The bucket that `getBucket` makes of the stored one.
unfoldable pub refill : Option TokenBucket → ℕ → TokenBucket
unfolding ◌+ℤ◌ scale min_ℤ
refill none now = record { tokens = full_bucket; last_refill = now }
refill (some bucket) now =
    let elapsed = sub_ℕ now bucket.last_refill in
    let tokens_to_add = scale refill_rate elapsed in
    record { tokens = min_ℤ full_bucket (bucket.tokens +ℤ tokens_to_add); last_refill = now }

abbrev pub has_token : TokenBucket → Bool
has_token bucket = if ltb_ℤ bucket.tokens one_token then false else true

abbrev pub reset_at : TokenBucket → ℕ
reset_at bucket = bucket.last_refill + window_ms

-- The bucket after one token is consumed.
abbrev pub spend : TokenBucket → TokenBucket
spend bucket = record bucket { tokens = bucket.tokens -ℤ one_token }

-- The answers of `checkLimit` and `consumeToken`, given the refilled bucket.
unfoldable pub check_answer : TokenBucket → Response
check_answer bucket = reply ok (
    result (
      if has_token bucket
      then create_rate_limit_allowed (floor_div bucket.tokens window_ms) (reset_at bucket)
      else create_rate_limit_denied (reset_at bucket)))

unfoldable pub consume_answer : ℕ → TokenBucket → Response
consume_answer later bucket =
    if has_token bucket
    then reply ok (
        result
          (create_rate_limit_allowed (floor_div (spend bucket).tokens window_ms) (reset_at bucket)))
    else record {
      status = too_many_requests;
      body = result (create_rate_limit_denied (reset_at bucket));
      retry_after = some (ceil_div (sub_ℕ (reset_at bucket) later) 1000);
    }

module _ (S : Storage TokenBucket) where
  open S use {Store, get, put, delete}

  unfoldable pub get_bucket : String → ℕ → Store → TokenBucket × Store
  get_bucket identity now s =
      let bucket = refill (get (bucket_key identity) s) now in
      (bucket, put (bucket_key identity) bucket s)

  unfoldable pub check_limit : String → ℕ → Store → Response × Store
  unfolding get_bucket
  check_limit identity now s =
      let (bucket, s') = get_bucket identity now s in (check_answer bucket, s')

  unfoldable pub consume_token : String → ℕ → ℕ → Store → Response × Store
  unfolding get_bucket
  consume_token identity now later s =
      let (bucket, s') = get_bucket identity now s in
      if has_token bucket
      then (consume_answer later bucket, put (bucket_key identity) (spend bucket) s')
      else (consume_answer later bucket, s')

  unfoldable pub reset_limit : String → Store → Response × Store
  reset_limit identity s =
      if truthy identity
      then (reply ok success, (delete (bucket_key identity) s).0)
      else (reply bad_request (error "Identity required"), s)

  unfoldable pub fetch : Request → ℕ → ℕ → Store → Response × Store
  fetch r now later s =
      if r.path == "/check"
      then check_limit (or_text r.identity "default") now s
      else if r.path == "/consume"
      then consume_token (or_text r.identity "default") now later s
      else if r.path == "/reset"
      then if r.method == "POST"
        then reset_limit (or_text r.identity "") s
        else (reply method_not_allowed (plain "Method not allowed"), s)
      else (reply not_found (plain "Not found"), s)
