-- ===== src/RateLimiter/Window.antt =====
-- How many requests of one identity the rate limiter lets through in a stretch of time.
use native.Mathlib.Nat.{le_refl}
use gpg_signing_service.Common.{
  ℕ, ap, ◌+◌, ◌-◌, ◌*◌, ◌≤◌, String, ◌≡◌, refl, Bool, true, false, Option, none, some, List, [],
  ◌∷◌, if◌then◌else◌, arith, or_text, eq_iff,
}
use gpg_signing_service.Common.Int.{pos_part, neg_part, ◌-ℤ◌}
use gpg_signing_service.Storage.{Storage}
use gpg_signing_service.RateLimiter.{
  TokenBucket, Request, Response, Body, result, is_allowed, bucket_key, refill, has_token, spend,
  fetch, max_tokens, window_ms, refill_rate, consume_answer, consume_token,
}
use gpg_signing_service.RateLimiter.Refinement.{
  Action, nothing, check, consume, reset, action, consumed, step, bucket-fetch,
}

-- A bucket that the limiter can have stored by the time `t`, if the clock never goes back.
pub record IsValid (b : TokenBucket) (t : ℕ) : Type 0 where
  pub nonneg : neg_part b.tokens ≡ 0
  pub bounded : pos_part b.tokens ≤ max_tokens * window_ms
  pub past : b.last_refill ≤ t

abbrev pub IsValid? : Option TokenBucket → ℕ → Type 0
IsValid? none t = Unit
IsValid? (some b) t = IsValid b t

-- What the identity may spend at the time `t`, in units.
abbrev pub credit : Option TokenBucket → ℕ → ℕ
credit o t = pos_part (refill o t).tokens

pub last_refill-refill : (o : Option TokenBucket) (now : ℕ) → (refill o now).last_refill ≡ now
unfolding refill
last_refill-refill none now = refl
last_refill-refill (some b) now = refl

pub refill-IsValid :
    (o : Option TokenBucket) (t now : ℕ) → IsValid? o t → t ≤ now → IsValid (refill o now) now
unfolding refill
refill-IsValid none t now v h = omega arith
refill-IsValid (some b) t now v h = ground arith

pub refill-le-credit :
    (o : Option TokenBucket) (t now : ℕ)
    → IsValid? o t
    → t ≤ now
    → credit o now ≤ credit o t + refill_rate * (now - t)
unfolding refill
refill-le-credit none t now v h = ground arith
refill-le-credit (some b) t now v h = ground arith

credit-none : (t : ℕ) → credit none t ≡ max_tokens * window_ms
unfolding refill
credit-none t = refl

-- A bucket that was refilled just now is not changed by refilling it.
pub credit_now :
    (b : TokenBucket) (now : ℕ)
    → IsValid b now
    → b.last_refill ≡ now
    → credit (some b) now ≡ pos_part b.tokens
unfolding refill
credit_now b now v e = ground arith

pub consumed-IsValid : (b : TokenBucket) (t : ℕ) → IsValid b t → IsValid (consumed b) t
unfolding ◌-ℤ◌
consumed-IsValid b t v = ground arith

-- Spending takes one token's worth of units.
pub spend_lem :
    (b : TokenBucket) (t : ℕ)
    → IsValid b t
    → has_token b ≡ true
    → pos_part (spend b).tokens + window_ms ≡ pos_part b.tokens
unfolding ◌-ℤ◌
spend_lem b t v h = ground arith

-- One request, as the events of a history: what was asked, and the two readings of the clock.
pub record Event : Type 0 where
  pub request : Request
  pub now : ℕ
  pub later : ℕ

-- The clock does not go back between `t`, the events and `u`.
abbrev pub Ordered : ℕ → List Event → ℕ → Type 0
Ordered t [] u = t ≤ u
Ordered t (e ∷ es) u = (t ≤ e.now) × Ordered e.now es u

abbrev pub body_allowed : Body → Bool
body_allowed (result r) = is_allowed r
body_allowed _ = false

Ordered-le : (t : ℕ) (es : List Event) (u : ℕ) → Ordered t es u → t ≤ u
Ordered-le t [] u h = h
Ordered-le t (e ∷ es) u (h, rest) = omega (arith, Ordered-le e.now es u rest)

-- 1 for a request of the identity to consume a token that is answered `allowed`.
abbrev pub granted : Action → Response → ℕ
granted consume r = if body_allowed r.body then 1 else 0
granted _ r = 0

abbrev pub resets : Action → ℕ
resets reset = 1
resets _ = 0

unfoldable pub grant : Action → ℕ → Option TokenBucket → ℕ
grant consume now o = if has_token (refill o now) then 1 else 0
grant _ now o = 0

-- One step of the abstract limiter keeps its bucket valid, and what it grants is paid by credit.
step_lem :
    (a : Action) (t now : ℕ) (o : Option TokenBucket)
    → IsValid? o t
    → t ≤ now
    → IsValid? (step a now o) now
      × (window_ms * grant a now o + credit (step a now o) now
          ≤ credit o t + refill_rate * (now - t) + max_tokens * window_ms * resets a)
unfolding grant
step_lem nothing t now none v h = ground (arith, refill-le-credit none t now v h)
step_lem nothing t now (some b) v h = ground (arith, refill-le-credit (some b) t now v h)
step_lem check t now o v h =
    let r = refill-IsValid o t now v h in
    (
      r,
      ground (
        arith,
        refill-le-credit o t now v h,
        credit_now (refill o now) now r (last_refill-refill o now),
      ),
    )
step_lem consume t now o v h =
    let r = refill-IsValid o t now v h in
    let c = consumed-IsValid (refill o now) now r in
    (
      c,
      ground (
        arith,
        r,
        refill-le-credit o t now v h,
        spend_lem (refill o now) now r,
        last_refill-refill o now,
        credit_now (consumed (refill o now)) now c,
      ),
    )
step_lem reset t now o v h = ground (arith, credit-none now)

module _ (S : Storage TokenBucket) (i : String) where
  open S use {Store, get}

  abbrev pub bucket_of : Store → Option TokenBucket
  bucket_of s = get (bucket_key i) s

  -- How many requests of the identity a history grants, and how often it resets the identity.
  unfoldable pub granted_in : List Event → Store → ℕ
  granted_in [] s = 0
  granted_in (e ∷ es) s =
      let (response, s') = fetch S e.request e.now e.later s in
      granted (action i e.request) response + granted_in es s'

  unfoldable pub resets_in : List Event → ℕ
  resets_in [] = 0
  resets_in (e ∷ es) = resets (action i e.request) + resets_in es

  pub granted-fetch :
      (r : Request) (now later : ℕ) (s : Store)
      → granted (action i r) (fetch S r now later s).0 ≡ grant (action i r) now (bucket_of s)
  unfolding fetch grant consume_token consume_answer
  granted-fetch r now later s = ground (arith, eq_iff (or_text r.identity "default") i)

  granted_in-le :
      (es : List Event) (t u : ℕ) (s : Store)
      → IsValid? (bucket_of s) t
      → Ordered t es u
      → window_ms * granted_in es s
        ≤ credit (bucket_of s) t + refill_rate * (u - t) + max_tokens * window_ms * resets_in es
  unfolding granted_in resets_in
  granted_in-le [] t u s v h = omega arith
  granted_in-le (e ∷ es) t u s v (h, rest) =
      let a = action i e.request in
      let s' = (fetch S e.request e.now e.later s).1 in
      let same : bucket_of s' ≡ step a e.now (bucket_of s) =
        bucket-fetch S i e.now e.later s e.request in
      let (valid, paid) = step_lem a t e.now (bucket_of s) v h in
      omega (
        arith,
        paid,
        granted-fetch e.request e.now e.later s,
        ap (λ o. credit o e.now) same,
        Ordered-le e.now es u rest,
        granted_in-le es e.now u s' (rw same valid) rest,
      )

  -- The rate limit: whatever requests arrive, for this and for other identities, between the times
  -- `t` and `u` of a clock that does not go back, at most 100 requests of an identity are granted,
  -- and 100 more for each minute of the stretch and for each reset of the identity.
  pub granted_in-le-limit :
      (es : List Event) (t u : ℕ) (s : Store)
      → IsValid? (bucket_of s) t
      → Ordered t es u
      → window_ms * granted_in es s
        ≤ window_ms * max_tokens * (1 + resets_in es) + refill_rate * (u - t)
  granted_in-le-limit es t u s v h =
      omega (
        arith,
        granted_in-le es t u s v h,
        (refill-IsValid (bucket_of s) t t v (le_refl t)).bounded,
      )
