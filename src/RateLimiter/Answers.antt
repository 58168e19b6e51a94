-- ===== src/RateLimiter/Answers.antt =====
-- What the rate limiter answers, request by request.
use Prim.Native.Nat.{min}
use native.Mathlib.Nat.{le_refl}
use text.Mathlib.TextPositions.{eq_refl}
use gpg_signing_service.Common.{
  ℕ, zero, suc, ap, ◌+◌, ◌/◌, ◌≤◌, String, ◌≡◌, sym, ◌∙◌, true, false, some, List, [], ◌∷◌,
  if◌then◌else◌, arith, eq_iff, truthy,
}
use gpg_signing_service.Common.Int.{ℤ, sub_ℕ, pos_part, ceil_div}
use gpg_signing_service.Http.{too_many_requests}
use gpg_signing_service.Storage.{Storage}
use gpg_signing_service.RateLimiter.{
  TokenBucket, Request, result, denied, bucket_key, refill, has_token, fetch, window_ms,
  consume_answer, check_answer, check_limit, consume_token,
}
use gpg_signing_service.RateLimiter.Refinement.{consume, action, consumed, step, bucket-fetch}
use gpg_signing_service.RateLimiter.Window.{
  IsValid, IsValid?, credit, refill-IsValid, bucket_of, Event, granted, granted_in, body_allowed,
  grant, granted-fetch, spend_lem, credit_now, consumed-IsValid, last_refill-refill,
}

abbrev pub consume_request : String → Request
consume_request i = record { path = "/consume"; method = "GET"; identity = some i }

abbrev pub check_request : String → Request
check_request i = record { path = "/check"; method = "GET"; identity = some i }

-- The same request to consume, `k` times at one moment.
abbrev pub burst : ℕ → String → ℕ → List Event
burst zero i now = []
burst (suc k) i now = record { request = consume_request i; now = now; later = now } ∷ burst k i now

refused_answer :
    (now later : ℕ) (b : TokenBucket)
    → b.last_refill ≡ now
    → now ≤ later
    → has_token b ≡ false
    → ((consume_answer later b).status ≡ too_many_requests)
      × ((consume_answer later b).body ≡ result (denied (now + window_ms)))
      × ((seconds : ℤ) × ((consume_answer later b).retry_after ≡ some seconds)
          × (pos_part seconds ≤ 60))
unfolding consume_answer ceil_div
refused_answer now later b same h e = (
  ground arith,
  ground arith,
  (ceil_div (sub_ℕ (b.last_refill + window_ms) later) 1000, ground arith, ground arith),
)

body_allowed-consume :
    (later : ℕ) (b : TokenBucket) → body_allowed (consume_answer later b).body ≡ has_token b
unfolding consume_answer
body_allowed-consume later b = ground arith

-- 600 ms are enough for a token.
refilled_in_time :
    (b : TokenBucket) (now next : ℕ)
    → IsValid b now
    → b.last_refill ≡ now
    → now + 600 ≤ next
    → has_token (refill (some b) next) ≡ true
unfolding refill
refilled_in_time b now next v e h = ground arith

burst_step :
    (k now : ℕ) (b : TokenBucket)
    → IsValid b now
    → (if has_token b then 1 else 0) + min k (pos_part (consumed b).tokens / window_ms)
      ≡ min (suc k) (pos_part b.tokens / window_ms)
burst_step k now b v = ground (arith, spend_lem b now v)

module _ (S : Storage TokenBucket) (i : String) where
  open S use {Store}

  pub consume_token-answer :
      (now later : ℕ) (s : Store)
      → (consume_token S i now later s).0 ≡ consume_answer later (refill (bucket_of S i s) now)
  unfolding consume_token
  consume_token-answer now later s = ground arith

  bucket_of-refused :
      (now later : ℕ) (s : Store)
      → has_token (refill (bucket_of S i s) now) ≡ false
      → bucket_of S i (consume_token S i now later s).1 ≡ some (refill (bucket_of S i s) now)
  unfolding consume_token
  bucket_of-refused now later s e = ground (
    arith,
    S.get-put (bucket_key i) (bucket_key i) (refill (bucket_of S i s) now) s,
    eq_iff (bucket_key i) (bucket_key i),
  )

module _ (S : Storage TokenBucket) (i : String) (now : ℕ) where
  open S use {Store}

  -- Checking an identity and consuming one of its tokens at the same moment agree on whether a
  -- request is allowed.
  pub check-eq-consume :
      (later : ℕ) (s : Store)
      → body_allowed (check_limit S i now s).0.body
        ≡ body_allowed (consume_token S i now later s).0.body
  unfolding check_limit consume_token check_answer consume_answer
  check-eq-consume later s = ground arith

  -- If the stored bucket is one that the limiter makes while its clock is not set back (its tokens are not negative and not
  -- above the maximum, and its last refill is not ahead), a refusal has the status 429, denies with a reset one minute
  -- ahead, and has a Retry-After of at most 60 seconds if the clock is not set back during the answer; waiting 600 ms is
  -- enough for the next request to be granted.
  pub refused-retry :
      (later next after : ℕ) (s : Store)
      → IsValid? (bucket_of S i s) now
      → now ≤ later
      → now + 600 ≤ next
      → body_allowed (consume_token S i now later s).0.body ≡ false
      → ((consume_token S i now later s).0.status ≡ too_many_requests)
        × ((consume_token S i now later s).0.body ≡ result (denied (now + window_ms)))
        × ((seconds : ℤ) × ((consume_token S i now later s).0.retry_after ≡ some seconds)
            × (pos_part seconds ≤ 60))
        × (body_allowed (consume_token S i next after (consume_token S i now later s).1).0.body
            ≡ true)
  refused-retry later next after s v h soon refused =
      let b = refill (bucket_of S i s) now in
      let no_token : has_token b ≡ false =
        sym (body_allowed-consume later b) ∙ rw (consume_token-answer S i now later) at refused in
      let (status, body, header) =
        refused_answer now later b (last_refill-refill (bucket_of S i s) now) h no_token in
      (
        rw (consume_token-answer S i now later) status,
        rw (consume_token-answer S i now later) body,
        rw (consume_token-answer S i now later) header,
        rw
            (
              consume_token-answer S i next after,
              bucket_of-refused S i now later s no_token,
              body_allowed-consume after,
            )
            (refilled_in_time b now next (refill-IsValid (bucket_of S i s) now now v (le_refl now))
              (last_refill-refill (bucket_of S i s) now) soon),
      )

  -- A burst of requests at one moment is granted as often as the bucket holds whole tokens.
  pub granted_in-burst :
      (k : ℕ) (s : Store)
      → truthy i ≡ true
      → IsValid? (bucket_of S i s) now
      → granted_in S i (burst k i now) s ≡ min k (credit (bucket_of S i s) now / window_ms)
  unfolding granted_in grant
  granted_in-burst zero s t v = omega arith
  granted_in-burst (suc k) s t v =
      let r = refill (bucket_of S i s) now in
      let s' = (fetch S (consume_request i) now now s).1 in
      let v' = refill-IsValid (bucket_of S i s) now now v (le_refl now) in
      let w = consumed-IsValid r now v' in
      let acts : action i (consume_request i) ≡ consume = rw (t, eq_refl i) in
      let left : bucket_of S i s' ≡ some (consumed r) =
        bucket-fetch S i now now s (consume_request i)
        ∙ ap (λ a. step a now (bucket_of S i s)) acts in
      let one : granted (action i (consume_request i)) (fetch S (consume_request i) now now s).0
          ≡ grant consume now (bucket_of S i s) =
        granted-fetch S i (consume_request i) now now s
        ∙ ap (λ a. grant a now (bucket_of S i s)) acts in
      let held : credit (bucket_of S i s') now ≡ pos_part (consumed r).tokens =
        ap (λ o. credit o now) left
        ∙ credit_now (consumed r) now w
            (ground (arith, last_refill-refill (bucket_of S i s) now)) in
      omega (arith, one, held, granted_in-burst k s' t (rw left w), burst_step k now r v')
