-- ===== src/Sign/Paid.antt =====
-- What a signature costs.
use mathlib.Core.Path.{subst}
use gpg_signing_service.Common.{
  ◌≡◌, refl, sym, ◌∙◌, Bool, true, some, inl, inr, Bool-cases, truthy, ap,
}
use gpg_signing_service.Common.Result.{Result-cases}
use gpg_signing_service.Http.{ok}
use gpg_signing_service.Keys.{create_key_id}
use gpg_signing_service.RateLimiter.{has_token, spend, bucket_key}
use gpg_signing_service.KeyStorage
use gpg_signing_service.SignRequest.{
  Course, Calls, answered, rejected, Settings, Request, Response, key_id_param, is_listed,
}
use gpg_signing_service.Service.{Backend, World, fetch_key}
use gpg_signing_service.Sign.{sign_limited, limiter_called, call_both, tried, sign}
use gpg_signing_service.Sign.Limited.{
  is_signed, refused, caught-status, sign_limited-status, sign_limited-token, limit_of, payer,
  bucket_now, after_calls, consumed_bucket, call_both-answered,
}

module _ (B : Backend) where
  open B use {bucket_storage}

  module _ (env : Settings) (r : Request) (course : Course) where
    -- What a signature has cost, in what the handler leaves.
    abbrev Paid : World B → Response × World B → Type 0
    Paid w (answer, w') =
        (has_token (bucket_now B env r course w) ≡ true)
        × (bucket_storage.get (bucket_key (payer B env r course)) w'.buckets
            ≡ some (spend (bucket_now B env r course w)))

    abbrev signed_by : Response × World B → Bool
    signed_by (answer, w') = is_signed answer.status

    Paid-answered :
        (answer : KeyStorage.Response) (w : World B)
        → signed_by (
            sign_limited B env r course
              (limit_of B env r course (bucket_now B env r course w))
              answer
              (after_calls B env r course w))
          ≡ true
        → Paid w (
            sign_limited B env r course
              (limit_of B env r course (bucket_now B env r course w))
              answer
              (after_calls B env r course w))
    unfolding after_calls limiter_called
    Paid-answered answer w h =
        let token =
          sign_limited-token B env r course (bucket_now B env r course w) answer
            (after_calls B env r course w) h in
        let (_, kept) =
          sign_limited-status B env r course (bucket_now B env r course w) answer
            (after_calls B env r course w) in
        (
          token,
          ap (bucket_storage.get (bucket_key (payer B env r course))) kept
              ∙ consumed_bucket B env r course w token,
        )

    Paid-calls :
        (calls : Calls) (w : World B)
        → course.calls ≡ calls
        → signed_by (call_both B env r course w) ≡ true
        → Paid w (call_both B env r course w)
    unfolding call_both
    Paid-calls answered w e h =
        let same = call_both-answered B env r course w e in
        subst (Paid w) (sym same)
          (Paid-answered (fetch_key B (key_id_param env r) w.keys) w (sym (ap signed_by same) ∙ h))
    Paid-calls (rejected message reached) w e h =
        let (unsigned, _, _) =
          caught-status B env r course message (limiter_called B r course reached w).1 in
        absurd (refused (signed_by (call_both B env r course w)) h (rw (e, call_both) unsigned))

    Paid-tried :
        (w : World B) → signed_by (tried B env r course w) ≡ true → Paid w (tried B env r course w)
    unfolding tried
    Paid-tried w h = elim (Result-cases (create_key_id (key_id_param env r))) [
      | inl (id, e) ↦ rw (e, tried) (Paid-calls course.calls w refl (rw (e, tried) at h))
      | inr (m, e) ↦
          let (unsigned, _, _) = caught-status B env r course m w in
          absurd (refused (signed_by (tried B env r course w)) h (rw (e, tried) unsigned))
    ]

    -- The endpoint answers 200 only if the key id is one that the caller may use and the caller's bucket
    -- held a token, and afterwards the bucket is the one with that token spent.
    pub sign-signed :
        (w : World B)
        → (sign B env r course w).0.status ≡ ok
        → (is_listed r.variables.allowed_key_ids (key_id_param env r) ≡ true)
          × (has_token (bucket_now B env r course w) ≡ true)
          × (bucket_storage.get
                (bucket_key (payer B env r course))
                (sign B env r course w).1.buckets
              ≡ some (spend (bucket_now B env r course w)))
    unfolding sign
    sign-signed w status =
        let h : signed_by (sign B env r course w) ≡ true = ap is_signed status in
        elim (Bool-cases (truthy r.commit_data)) [
          | inr empty ↦
              absurd (refused (signed_by (sign B env r course w)) h (rw (empty, sign) refl))
          | inl given ↦
              elim (Bool-cases (is_listed r.variables.allowed_key_ids (key_id_param env r))) [
                | inr unlisted ↦ absurd (
                    refused (signed_by (sign B env r course w)) h (rw (given, unlisted, sign) refl))
                | inl listed ↦
                    let same : sign B env r course w ≡ tried B env r course w =
                      rw (given, listed, sign) refl in
                    (let (token, paid) =
                        subst (Paid w) (sym same) (Paid-tried w (sym (ap signed_by same) ∙ h)) in
                      (listed, token, paid))
              ]
        ]
