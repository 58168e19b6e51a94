-- ===== src/Worker/Quota.antt =====
-- How many signatures one identity gets.
use gpg_signing_service.Common.{
  ℕ, ◌+◌, ◌-◌, ◌*◌, ◌≤◌, String, ◌≡◌, refl, ap, Bool, true, false, some, List, [], ◌∷◌, ◌&&◌, ◌⊎◌,
  inl, inr, Bool-cases, if◌then◌else◌, or_text, ◌==◌, eq_iff, arith,
}
use mathlib.Core.Path.{subst}
use gpg_signing_service.Http.{Status, ok}
use gpg_signing_service.RateLimiter.{fetch, max_tokens, window_ms, refill_rate}
use gpg_signing_service.RateLimiter.Refinement.{action}
use gpg_signing_service.RateLimiter.Window.{
  IsValid?, Event, Ordered, granted, resets, bucket_of, granted_in, resets_in, granted_in-le-limit,
}
use gpg_signing_service.Auth.{Passage, next, refuse, Variables, caller_auth}
use gpg_signing_service.SignRequest
use gpg_signing_service.Service.{Backend, World}
use gpg_signing_service.Sign.{sign}
use gpg_signing_service.Sign.Limited.{is_signed, payer}
use gpg_signing_service.Sign.Spent.{consume_request, sign-Spent, granted-signed}
use gpg_signing_service.App.{sign_as, sign_endpoint}
use gpg_signing_service.Worker.{
  SignArrival, signing, Deployment, sign_answer, sign_valid, sign_invalid, refused_sign, serve,
}

is_signed-ok : (s : Status) → is_signed s ≡ true → s ≡ ok
is_signed-ok ok h = refl
is_signed-ok s h = ground (arith, h)

-- Whether the caller who is let through is this one.
abbrev is_by : String → Passage Variables → Bool
is_by i (refuse status message code) = false
is_by i (next v) = or_text (some v.identity) "default" == i

-- The clock does not go back between `t`, the calls of the rate limiter and `u`.
abbrev pub InOrder : ℕ → List SignArrival → ℕ → Type 0
InOrder t [] u = t ≤ u
InOrder t (a ∷ rest) u = (t ≤ a.course.limited_at) × InOrder a.course.limited_at rest u

module _ (B : Backend) (d : Deployment) (i : String) where
  open B use {bucket_storage}

  abbrev passage_of : SignArrival → World B → Passage Variables
  passage_of a w =
      (caller_auth d.platform d.oidc d.dates d.digest a.now a.faults a.header (w.net, w.tokens)).0

  -- 1 for a request of the identity that is answered with a signature.
  abbrev pub signature : SignArrival → World B → ℕ
  signature a w =
      if is_by i (passage_of a w) && is_signed (serve B d (signing a) w).0.status then 1 else 0

  -- How many signatures the identity gets in a history of requests to `/sign`.
  unfoldable pub signatures_in : List SignArrival → World B → ℕ
  signatures_in [] w = 0
  signatures_in (a ∷ rest) w = signature a w + signatures_in rest (serve B d (signing a) w).1

  -- A request has not spent anything and is not answered with a signature, or it has been granted what it got.
  abbrev Stepped : SignRequest.Course → ℕ → bucket_storage.Store → bucket_storage.Store → Type 0
  Stepped course count s s' =
      ((s' ≡ s) × (count ≡ 0))
      ⊎ ((identity : String) × ((s'
              ≡ (fetch bucket_storage (consume_request identity) course.limited_at course.refused_at
                  s).1)
            × (count
                ≤ granted (action i (consume_request identity))
                    (fetch bucket_storage (consume_request identity) course.limited_at
                      course.refused_at s).0)))

  abbrev count_as : Passage Variables → Status → ℕ
  count_as passage status = if is_by i passage && is_signed status then 1 else 0

  -- What is counted is granted.
  counted-granted :
      (r : SignRequest.Request) (course : SignRequest.Course) (w : World B)
      → count_as (next r.variables) (sign B d.settings r course w).0.status
        ≤ granted
            (action i (consume_request r.variables.identity))
            (fetch bucket_storage
              (consume_request r.variables.identity)
              course.limited_at
              course.refused_at
              w.buckets).0
  counted-granted r course w =
      elim (Bool-cases
        (is_by i (next r.variables) && is_signed (sign B d.settings r course w).0.status)) [
          | inr other ↦ rw other (omega arith)
          | inl counted ↦
              let by : is_by i (next r.variables) ≡ true = ground (arith, counted) in
              let made : is_signed (sign B d.settings r course w).0.status ≡ true =
                ground (arith, counted) in
              let same : payer B d.settings r course ≡ i =
                (eq_iff (payer B d.settings r course) i).0 by in
              let paid =
                granted-signed B d.settings r course w
                  (is_signed-ok (sign B d.settings r course w).0.status made) in
              let granted_one =
                subst
                  (λ j.
                    granted (action j (consume_request r.variables.identity))
                      (fetch bucket_storage (consume_request r.variables.identity) course.limited_at
                        course.refused_at w.buckets).0
                    ≡ 1)
                  same paid in
              rw (counted, granted_one) (omega arith)
        ]

  sign-Stepped :
      (r : SignRequest.Request) (course : SignRequest.Course) (w : World B)
      → Stepped course
          (count_as (next r.variables) (sign B d.settings r course w).0.status)
          w.buckets
          (sign B d.settings r course w).1.buckets
  sign-Stepped r course w = elim (sign-Spent B d.settings r course w) [
    | inl (kept, unsigned) ↦ inl (kept, ground (arith, unsigned))
    | inr spent ↦ inr (r.variables.identity, (spent, counted-granted r course w))
  ]

  as-Stepped :
      (a : SignArrival) (passage : Passage Variables) (w : World B)
      → Stepped a.course
          (count_as passage
            (sign_answer B d (sign_as B d.settings a.request a.course passage w).0).status)
          w.buckets
          (sign_as B d.settings a.request a.course passage w).1.buckets
  unfolding sign_as
  as-Stepped a (refuse status message code) w = inl (refl, refl)
  as-Stepped a (next v) w = sign-Stepped (record a.request { variables = v }) a.course w

  invalid-Stepped :
      (a : SignArrival) (passage : Passage Variables) (s : bucket_storage.Store)
      → Stepped a.course (count_as passage (refused_sign B d passage).status) s s
  invalid-Stepped a (refuse status message code) s = inl (refl, refl)
  invalid-Stepped a (next v) s = inl (refl, ground arith)

  serve-Stepped :
      (a : SignArrival) (w : World B)
      → Stepped a.course (signature a w) w.buckets (serve B d (signing a) w).1.buckets
  unfolding serve sign_valid sign_endpoint sign_invalid
  serve-Stepped a w = elim (Bool-cases a.is_valid) [
    | inl valid ↦
        let (passage, (net, rows)) =
          caller_auth d.platform d.oidc d.dates d.digest a.now a.faults a.header
            (w.net, w.tokens) in
        rw (valid, serve) (as-Stepped a passage (record w { net = net; tokens = rows }))
    | inr refused ↦ rw (refused, serve) (invalid-Stepped a (passage_of a w) w.buckets)
  ]

  -- The requests of the history to the rate limiter.
  abbrev Tracked : ℕ → ℕ → ℕ → bucket_storage.Store → Type 0
  Tracked t u count s =
      (es : List Event) × (Ordered t es u
        × ((resets_in bucket_storage i es ≡ 0) × (count ≤ granted_in bucket_storage i es s)))

  Ordered-earlier : (t t' : ℕ) (es : List Event) (u : ℕ) → t ≤ t' → Ordered t' es u → Ordered t es u
  Ordered-earlier t t' [] u h o = omega (arith, h, o)
  Ordered-earlier t t' (e ∷ es) u h (first, rest) = (omega (arith, h, first), rest)

  consume-unset : (identity : String) → resets (action i (consume_request identity)) ≡ 0
  consume-unset identity = ground arith

  signatures_in-Tracked :
      (arrivals : List SignArrival) (t u : ℕ) (w : World B)
      → InOrder t arrivals u
      → Tracked t u (signatures_in arrivals w) w.buckets
  unfolding signatures_in granted_in resets_in
  signatures_in-Tracked [] t u w o = ([], (o, (refl, omega arith)))
  signatures_in-Tracked (a ∷ rest) t u w (first, others) =
      let w' = (serve B d (signing a) w).1 in
      let (es, (ordered, (unset, le))) =
        signatures_in-Tracked rest a.course.limited_at u w' others in
      elim (serve-Stepped a w) [
        | inl (kept, none_counted) ↦
            let same : granted_in bucket_storage i es w'.buckets
                ≡ granted_in bucket_storage i es w.buckets =
              ap (λ s. granted_in bucket_storage i es s) kept in
            (
              es,
              (
                Ordered-earlier t a.course.limited_at es u first ordered,
                (unset, omega (arith, le, same, none_counted)),
              ),
            )
        | inr (identity, (spent, counted)) ↦
            let event : Event = record {
              request = consume_request identity;
              now = a.course.limited_at;
              later = a.course.refused_at;
            } in
            let same : granted_in bucket_storage i es w'.buckets
                ≡ granted_in bucket_storage i es
                    (fetch bucket_storage (consume_request identity) a.course.limited_at
                      a.course.refused_at w.buckets).1 =
              ap (λ s. granted_in bucket_storage i es s) spent in
            (
              event ∷ es,
              (
                (first, ordered),
                (omega (arith, unset, consume-unset identity), omega (arith, le, same, counted)),
              ),
            )
      ]

  -- The quota of an identity. Whatever requests to `/sign` arrive, one after another, of this and of other callers,
  -- between the times `t` and `u` of a clock that does not go back: at most 100 of the requests of the identity are
  -- answered with a signature, and 100 more for each minute of the stretch. The bucket of the identity is one that the
  -- limiter can have stored by the time `t`.
  pub signatures_in-le-limit :
      (arrivals : List SignArrival) (t u : ℕ) (w : World B)
      → IsValid? (bucket_of bucket_storage i w.buckets) t
      → InOrder t arrivals u
      → window_ms * signatures_in arrivals w ≤ window_ms * max_tokens + refill_rate * (u - t)
  signatures_in-le-limit arrivals t u w v o =
      let (es, (ordered, (unset, le))) = signatures_in-Tracked arrivals t u w o in
      omega (arith, granted_in-le-limit bucket_storage i es t u w.buckets v ordered, unset, le)
