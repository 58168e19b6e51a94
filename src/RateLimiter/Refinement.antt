-- ===== src/RateLimiter/Refinement.antt =====
-- What a request to the rate limiter does to one identity: the store is a family of buckets.
use text.Mathlib.TextLemmas.{append_cancel_left}
use gpg_signing_service.Common.{
  ℕ, String, ◌≡◌, ap, Bool, true, false, Option, none, some, or_text, truthy, ◌==◌, eq_iff,
  if◌then◌else◌, arith, ◌&&◌,
}
use gpg_signing_service.Storage.{Storage}
use gpg_signing_service.RateLimiter.{
  TokenBucket, Request, bucket_key, refill, has_token, spend, check_limit, consume_token,
  reset_limit, fetch,
}

-- What a request asks for, as far as one identity is concerned.
pub data Action : Type 0 where
  nothing check consume reset : Action

abbrev pub for_identity : Bool → Action → Action
for_identity true a = a
for_identity false a = nothing

abbrev pub action : String → Request → Action
action i r =
    if r.path == "/check"
    then for_identity (or_text r.identity "default" == i) check
    else if r.path == "/consume"
    then for_identity (or_text r.identity "default" == i) consume
    else if r.path == "/reset"
    then for_identity
        (r.method == "POST" && (truthy (or_text r.identity "") && or_text r.identity "" == i)) reset
    else nothing

abbrev pub consumed : TokenBucket → TokenBucket
consumed bucket = if has_token bucket then spend bucket else bucket

-- The abstract limiter of one identity.
abbrev pub step : Action → ℕ → Option TokenBucket → Option TokenBucket
step nothing now o = o
step check now o = some (refill o now)
step consume now o = some (consumed (refill o now))
step reset now o = none

bucket_key-injective : (i j : String) → (bucket_key i == bucket_key j) ≡ (i == j)
bucket_key-injective i j = ground (
  arith,
  eq_iff i j,
  eq_iff (bucket_key i) (bucket_key j),
  append_cancel_left "bucket:" i j,
  ap bucket_key {x = i} {y = j},
)

module _ (S : Storage TokenBucket) (i : String) (now later : ℕ) (s : S.Store) where
  open S use {get, get-put, get-delete}

  get-check_limit :
      (j : String)
      → get (bucket_key i) (check_limit S j now s).1
        ≡ step (for_identity (j == i) check) now (get (bucket_key i) s)
  unfolding check_limit
  get-check_limit j = ground (
    arith,
    get-put (bucket_key j) (bucket_key i) (refill (get (bucket_key j) s) now) s,
    bucket_key-injective j i,
    eq_iff j i,
  )

  get-consume_token :
      (j : String)
      → get (bucket_key i) (consume_token S j now later s).1
        ≡ step (for_identity (j == i) consume) now (get (bucket_key i) s)
  unfolding consume_token
  get-consume_token j =
      let b = refill (get (bucket_key j) s) now in
      ground (
        arith,
        get-put (bucket_key j) (bucket_key i) b s,
        get-put (bucket_key j) (bucket_key i) (spend b) (S.put (bucket_key j) b s),
        bucket_key-injective j i,
        eq_iff j i,
      )

  get-reset_limit :
      (j : String)
      → get (bucket_key i) (reset_limit S j s).1
        ≡ step (for_identity (truthy j && j == i) reset) now (get (bucket_key i) s)
  unfolding reset_limit
  get-reset_limit j =
      ground
        (arith, get-delete (bucket_key j) (bucket_key i) s, bucket_key-injective j i, eq_iff j i)

  -- A request changes the bucket of an identity as the abstract limiter says, whichever identity it
  -- names: the store refines a family of independent buckets.
  pub bucket-fetch :
      (r : Request)
      → get (bucket_key i) (fetch S r now later s).1 ≡ step (action i r) now (get (bucket_key i) s)
  unfolding fetch
  bucket-fetch r = ground (
    arith,
    get-check_limit (or_text r.identity "default"),
    get-consume_token (or_text r.identity "default"),
    get-reset_limit (or_text r.identity ""),
  )
