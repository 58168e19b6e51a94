-- ===== src/App/Guarded.antt =====
-- Who reaches the handlers.
use gpg_signing_service.ServiceTokens.{Faults}
use gpg_signing_service.Common.{
  ℕ, String, ◌≡◌, ◌≢◌, refl, ◌∙◌, Bool, true, false, Option, none, some, List, ◌&&◌, not,
  if◌then◌else◌, ap, sym, ◌+s◌, inl, inr, ◌⊎◌, Bool-cases,
}
use mathlib.Core.Bool.{true≢false}
use gpg_signing_service.Http.{ok, service_unavailable}
use gpg_signing_service.RateLimiter.{bucket_key, refill, has_token, spend}
use gpg_signing_service.Dates.{Dates}
use gpg_signing_service.Errors.{rate_limit_error}
use gpg_signing_service.Oidc.{Platform}
use gpg_signing_service.Oidc
use gpg_signing_service.Auth.{Comparison, Passage, next, refuse, Variables, admin_auth, caller_auth}
use gpg_signing_service.Auth.Admin.{admin_auth_iff}
use gpg_signing_service.Security.{Admission, admitted, refused, admin_rate_limit, admin_identity}
use gpg_signing_service.Security.FailClosed.{admin_rate_limit-closed}
use gpg_signing_service.Service.{Backend, World}
use gpg_signing_service.SignRequest.{Settings, Request, Response, Course, key_id_param, is_listed}
use gpg_signing_service.Sign.Limited.{bucket_now, payer}
use gpg_signing_service.Sign.Paid.{sign-signed}
use gpg_signing_service.App.{
  served, limited, unauthenticated, is_served, sign_as, sign_endpoint, authenticated,
  rate_limited_admin, admin_endpoint,
}

served-injective : {A : Type 0} {a b : A} → served a ≡ served b → a ≡ b
served-injective {A} {a} {b} e =
    ap (λ x. elim x [ served y ↦ y | limited s c n ↦ a | unauthenticated s m c ↦ a ]) e

module _ (B : Backend) where
  open B use {bucket_storage}

  module _ {A : Type 0} (handler : World B → A × World B) where
    -- Without the admin token, the handler is not reached.
    rate_limited_admin-unserved :
        (c : Comparison) (admin_token : String) (header : Option String) (admission : Admission)
        (w : World B)
        → header ≢ some ("Bearer " +s admin_token)
        → (is_served (rate_limited_admin B handler c admin_token header admission w).0 ≡ false)
          × ((rate_limited_admin B handler c admin_token header admission w).1 ≡ w)
    unfolding rate_limited_admin authenticated
    rate_limited_admin-unserved c admin_token header (refused status code retry_after) w other =
        (refl, refl)
    rate_limited_admin-unserved c admin_token header (admitted remaining reset) w other =
        refused_passage (admin_auth c admin_token header)
          (λ e. other ((admin_auth_iff c admin_token header).0 e))
      where
        refused_passage :
            (passage : Passage Unit)
            → passage ≢ next tt
            → (is_served (authenticated B handler passage w).0 ≡ false)
              × ((authenticated B handler passage w).1 ≡ w)
        refused_passage (refuse status message code) n = (refl, refl)
        refused_passage (next tt) n = absurd (n refl)

    authenticated-cases :
        (passage : Passage Unit) (w : World B)
        → ((authenticated B handler passage w).1 ≡ w)
          ⊎ ((authenticated B handler passage w).1 ≡ (handler w).1)
    unfolding authenticated
    authenticated-cases (refuse status message code) w = inl refl
    authenticated-cases (next _) w = inr refl

    rate_limited_admin-cases :
        (c : Comparison) (admin_token : String) (header : Option String) (admission : Admission)
        (w : World B)
        → ((rate_limited_admin B handler c admin_token header admission w).1 ≡ w)
          ⊎ ((rate_limited_admin B handler c admin_token header admission w).1 ≡ (handler w).1)
    unfolding rate_limited_admin
    rate_limited_admin-cases c admin_token header (refused status code retry_after) w = inl refl
    rate_limited_admin-cases c admin_token header (admitted remaining reset) w =
        authenticated-cases (admin_auth c admin_token header) w

    module _ (c : Comparison) (admin_token ip : String) (call_fails : Bool)
        (now later answered_at : ℕ) (w : World B) where
      -- Whatever the handler, a request to `/admin` without the header that bears the admin token is not answered by it,
      -- and changes nothing but the buckets of the rate limit of the administration.
      pub admin_endpoint-unserved :
          (header : Option String)
          → header ≢ some ("Bearer " +s admin_token)
          → (is_served
                (admin_endpoint B handler c admin_token ip call_fails now later answered_at header
                  w).0
              ≡ false)
            × ((admin_endpoint B handler c admin_token ip call_fails now later answered_at header
                  w).1
                ≡ record w {
                  admin_buckets =
                      (admin_rate_limit bucket_storage ip call_fails now later answered_at
                        w.admin_buckets).1;
                })
      unfolding admin_endpoint
      admin_endpoint-unserved header other =
          let (admission, buckets) =
            admin_rate_limit bucket_storage ip call_fails now later answered_at w.admin_buckets in
          rate_limited_admin-unserved c admin_token header admission
            (record w { admin_buckets = buckets }) other

      abbrev pub has_admin_token : Bool
      has_admin_token =
          not call_fails
          && has_token
              (refill (bucket_storage.get (bucket_key (admin_identity ip)) w.admin_buckets) now)

      abbrev pub limited_world : World B
      limited_world = record w {
        admin_buckets =
            (admin_rate_limit bucket_storage ip call_fails now later answered_at w.admin_buckets).1;
      }

      -- The world after a request is as the rate limit leaves it, or as the handler makes it from there.
      pub admin_endpoint-cases :
          (header : Option String)
          → ((admin_endpoint B handler c admin_token ip call_fails now later answered_at header w).1
              ≡ limited_world)
            ⊎ ((admin_endpoint B handler c admin_token ip call_fails now later answered_at header
                  w).1
                ≡ (handler limited_world).1)
      unfolding admin_endpoint
      admin_endpoint-cases header =
          let (admission, buckets) =
            admin_rate_limit bucket_storage ip call_fails now later answered_at w.admin_buckets in
          rate_limited_admin-cases c admin_token header admission limited_world

      -- With the admin token in the header, the handler answers exactly if the rate limiter could be called and the
      -- bucket of the client held a token; otherwise the answer is 503, and the handler is not run.
      pub admin_endpoint-served :
          admin_endpoint B handler c admin_token ip call_fails now later answered_at
            (some ("Bearer " +s admin_token))
            w
          ≡ (if has_admin_token
              then (served (handler limited_world).0, (handler limited_world).1)
              else (limited service_unavailable rate_limit_error none, limited_world))
      unfolding admin_endpoint rate_limited_admin authenticated
      admin_endpoint-served =
          let closed =
            admin_rate_limit-closed bucket_storage ip call_fails now later answered_at
              w.admin_buckets in
          let known = (admin_auth_iff c admin_token (some ("Bearer " +s admin_token))).1 refl in
          ap
            (λ a.
              rate_limited_admin B handler c admin_token (some ("Bearer " +s admin_token)) a
                limited_world)
            closed
          ∙ elim (Bool-cases has_admin_token) [
            | inl h ↦ rw (h, rate_limited_admin, known, authenticated) refl
            | inr h ↦ rw (h, rate_limited_admin) refl
          ]

  -- If `/sign` answers 200, then the authentication has let the caller through, who has no allowlist (as a caller with an
  -- OIDC token has none) or one that lists the key id, and a token of the caller's bucket has been spent.
  pub sign_endpoint-signed :
      (p : Platform) (oidc : Oidc.Settings) (dates : Dates) (digest : String → List ℕ) (now : ℕ)
      (faults : Faults) (header : Option String) (env : Settings) (r : Request) (course : Course)
      (w : World B) (answer : Response)
      → (sign_endpoint B p oidc dates digest now faults header env r course w).0 ≡ served answer
      → answer.status ≡ ok
      → (v : Variables) × (((caller_auth p oidc dates digest now faults header (w.net, w.tokens)).0
            ≡ next v)
          × ((is_listed v.allowed_key_ids (key_id_param env r) ≡ true)
              × (bucket_storage.get
                    (bucket_key (payer B env (record r { variables = v }) course))
                    (sign_endpoint B p oidc dates digest now faults header env r course w).1.buckets
                  ≡ some (spend (bucket_now B env (record r { variables = v }) course w)))))
  unfolding sign_endpoint sign_as
  sign_endpoint-signed p oidc dates digest now faults header env r course w answer e status =
      let (passage, (net, tokens)) =
        caller_auth p oidc dates digest now faults header (w.net, w.tokens) in
      signed_as passage (record w { net = net; tokens = tokens }) e
    where
      signed_as :
          (passage : Passage Variables) (w' : World B)
          → (sign_as B env r course passage w').0 ≡ served answer
          → (v : Variables) × ((passage ≡ next v)
              × ((is_listed v.allowed_key_ids (key_id_param env r) ≡ true)
                  × (bucket_storage.get
                        (bucket_key (payer B env (record r { variables = v }) course))
                        (sign_as B env r course passage w').1.buckets
                      ≡ some (spend (bucket_now B env (record r { variables = v }) course w')))))
      signed_as (refuse s m n) w' e' = absurd (true≢false (sym (ap is_served e')))
      signed_as (next v) w' e' =
          let done = ap (λ (x : Response). x.status) (served-injective e') ∙ status in
          let (listed, _, paid) = sign-signed B env (record r { variables = v }) course w' done in
          (v, (refl, (listed, paid)))
