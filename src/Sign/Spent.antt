-- ===== src/Sign/Spent.antt =====
-- What `POST /sign` asks of the rate limiter.
use gpg_signing_service.Common.{
  String, ◌≡◌, refl, ◌∙◌, ap, true, false, some, ◌⊎◌, inl, inr, Bool-cases, truthy, eq_iff, arith,
}
use gpg_signing_service.Common.Result.{Result-cases}
use gpg_signing_service.Http.{ok}
use gpg_signing_service.Keys.{create_key_id}
use gpg_signing_service.RateLimiter.{Request, fetch}
use gpg_signing_service.RateLimiter.Refinement.{action, consume}
use gpg_signing_service.RateLimiter.Window.{granted, grant, granted-fetch}
use gpg_signing_service.SignRequest
use gpg_signing_service.SignRequest.{
  Course, Calls, answered, rejected, Settings, Response, key_id_param, is_listed,
}
use gpg_signing_service.Service.{Backend, World, fetch_key, fetch_rate_limiter}
use gpg_signing_service.Sign.{limiter_called, call_both, tried, sign}
use gpg_signing_service.Sign.Limited.{
  is_signed, caught-status, sign_limited-status, after_calls, call_both-answered, payer, bucket_now,
}
use gpg_signing_service.Sign.Paid.{sign-signed}

-- The request of the handler to the rate limiter.
abbrev pub consume_request : String → Request
consume_request identity = record { path = "/consume"; method = "GET"; identity = some identity }

module _ (B : Backend) (env : Settings) (r : SignRequest.Request) (course : Course) where
  open B use {bucket_storage}

  abbrev pub consumed_buckets : World B → bucket_storage.Store
  consumed_buckets w =
      (fetch bucket_storage (consume_request r.variables.identity) course.limited_at
        course.refused_at w.buckets).1

  -- The limiter has not served a call, and nothing is signed, or it has served one.
  abbrev pub Spent : World B → Response × World B → Type 0
  Spent w (answer, w') =
      ((w'.buckets ≡ w.buckets) × (is_signed answer.status ≡ false))
      ⊎ (w'.buckets ≡ consumed_buckets w)

  called-Spent :
      (w : World B) (calls : Calls) → course.calls ≡ calls → Spent w (call_both B env r course w)
  unfolding call_both limiter_called after_calls fetch_rate_limiter
  called-Spent w answered e =
      let (_, kept) =
        sign_limited-status B env r course (bucket_now B env r course w)
          (fetch_key B (key_id_param env r) w.keys) (after_calls B env r course w) in
      inr (
        ap (λ (p : Response × World B). p.1.buckets) (call_both-answered B env r course w e) ∙ kept)
  called-Spent w (rejected message true) e =
      let (_, _, kept) =
        caught-status B env r course message (limiter_called B r course true w).1 in
      inr (rw (e, call_both) kept)
  called-Spent w (rejected message false) e =
      let (unsigned, _, kept) = caught-status B env r course message w in
      inl (rw (e, call_both) kept, rw (e, call_both) unsigned)

  tried-Spent : (w : World B) → Spent w (tried B env r course w)
  unfolding tried
  tried-Spent w = elim (Result-cases (create_key_id (key_id_param env r))) [
    | inl (id, e) ↦ rw (e, tried) (called-Spent w course.calls refl)
    | inr (message, e) ↦
        let (unsigned, _, kept) = caught-status B env r course message w in
        inl (rw (e, tried) kept, rw (e, tried) unsigned)
  ]

  pub sign-Spent : (w : World B) → Spent w (sign B env r course w)
  unfolding sign
  sign-Spent w = elim (Bool-cases (truthy r.commit_data)) [
    | inr empty ↦ inl (rw (empty, sign) refl, rw (empty, sign) refl)
    | inl given ↦ elim (Bool-cases (is_listed r.variables.allowed_key_ids (key_id_param env r))) [
      | inl listed ↦ rw (given, listed, sign) (tried-Spent w)
      | inr other ↦ inl (rw (given, other, sign) refl, rw (given, other, sign) refl)
    ]
  ]

  -- A signature is granted to its payer.
  pub granted-signed :
      (w : World B)
      → (sign B env r course w).0.status ≡ ok
      → granted
          (action (payer B env r course) (consume_request r.variables.identity))
          (fetch bucket_storage
            (consume_request r.variables.identity)
            course.limited_at
            course.refused_at
            w.buckets).0
        ≡ 1
  unfolding grant
  granted-signed w e =
      let i = payer B env r course in
      let (_, token, _) = sign-signed B env r course w e in
      let consumes : action i (consume_request r.variables.identity) ≡ consume =
        ground (arith, eq_iff i i) in
      granted-fetch bucket_storage i (consume_request r.variables.identity) course.limited_at
        course.refused_at w.buckets
      ∙ rw (consumes, grant, token) refl
