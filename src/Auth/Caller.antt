-- ===== src/Auth/Caller.antt =====
-- Whom the authentication of the signing endpoint lets through.
use gpg_signing_service.Common.{
  ℕ, ◌/◌, String, ◌≡◌, refl, ◌∙◌, true, false, Option, none, some, List, arith, inl, inr, ◌⊎◌,
  Bool-cases, starts_with, skip, split, truthy,
}
use gpg_signing_service.Common.Result.{Result, returns, throws}
use gpg_signing_service.Keys.{create_identity}
use gpg_signing_service.Dates.{Dates}
use gpg_signing_service.Oidc.{Platform, Settings, Net, OidcClaims, validate_oidc_token}
use gpg_signing_service.ServiceTokens.{
  TokenRow, ServiceTokenPolicy, service_token_prefix, verify_service_token, Faults,
}
use gpg_signing_service.Auth.{
  Variables, next, is_bearer, second, oidc_auth, oidc_passage, caller_auth, service_token_issuer,
  synthetic_claims, verified_passage,
}

module _ (p : Platform) (env : Settings) (h : String) where
  abbrev pub oidc_token : String
  oidc_token = second (split b' ' h)

  -- The variables that OIDC claims leave.
  abbrev pub oidc_variables : OidcClaims → Variables
  oidc_variables claims = record {
    oidc_claims = claims;
    identity = create_identity claims.iss claims.sub;
    allowed_key_ids = none;
  }

  passed :
      (result : Result OidcClaims) (v : Variables)
      → oidc_passage result ≡ next v
      → (claims : OidcClaims) × (result ≡ returns claims) × (v ≡ oidc_variables claims)
  passed (throws e) v eq = absurd (cc)
  passed (returns claims) v eq = (claims, refl, ground arith)

  oidc_passed :
      (claims_time : ℕ) (s : Net) (v : Variables)
      → (oidc_auth p env claims_time (some h) s).0 ≡ next v
      → (claims : OidcClaims) × ((validate_oidc_token p oidc_token env claims_time s).0
          ≡ returns claims)
        × (v ≡ oidc_variables claims)
  unfolding oidc_auth
  oidc_passed claims_time s v eq = elim (Bool-cases (is_bearer (some h))) [
    | inr other ↦ absurd (ground (arith, other, eq))
    | inl bearer ↦ elim (Bool-cases (truthy oidc_token)) [
      | inr empty ↦ absurd (ground (arith, bearer, empty, eq))
      | inl given ↦
          passed (validate_oidc_token p oidc_token env claims_time s).0 v
            (rw (bearer, given, oidc_auth) at eq)
    ]
  ]

-- The token of a service, which stands behind `Bearer `.
abbrev pub bearer_token : String → String
bearer_token h = skip 7 h

-- The variables that the policy of a service token leaves.
abbrev pub policy_variables : ℕ → ServiceTokenPolicy → Variables
policy_variables claims_time policy = record {
  oidc_claims = synthetic_claims claims_time policy;
  identity = create_identity service_token_issuer policy.name;
  allowed_key_ids = policy.allowed_key_ids;
}

token_passed :
    (claims_time : ℕ) (found : Result (Option ServiceTokenPolicy)) (v : Variables)
    → verified_passage claims_time found ≡ next v
    → (policy : ServiceTokenPolicy) × (found ≡ returns (some policy))
      × (v ≡ policy_variables claims_time policy)
token_passed claims_time (throws message) v e = absurd (cc)
token_passed claims_time (returns none) v e = absurd (cc)
token_passed claims_time (returns (some policy)) v e = (policy, refl, ground arith)

module _ (p : Platform) (env : Settings) (dates : Dates) (digest : String → List ℕ) where
  -- A caller who is let through either presents a token with the prefix `gst_` that is accepted, and has
  -- the identity and the allowlist of its policy, without any use of the network; or presents another
  -- token that OIDC validation accepts, and has the identity of its claims and no allowlist, without any
  -- change of the table of service tokens.
  pub caller_auth-IsKnown :
      (now : ℕ) (faults : Faults) (h : String) (net : Net) (rows : List TokenRow) (v : Variables)
      → (caller_auth p env dates digest now faults (some h) (net, rows)).0 ≡ next v
      → ((starts_with (bearer_token h) service_token_prefix ≡ true)
          × (policy : ServiceTokenPolicy) × ((verify_service_token dates digest now faults
                (bearer_token h)
                rows).0
              ≡ returns (some policy))
          × (v ≡ policy_variables (now / 1000) policy)
          × ((caller_auth p env dates digest now faults (some h) (net, rows)).1.0 ≡ net))
        ⊎ ((starts_with (bearer_token h) service_token_prefix ≡ false)
            × (claims : OidcClaims) × ((validate_oidc_token p
                  (oidc_token p env h)
                  env
                  (now / 1000)
                  net).0
                ≡ returns claims)
            × (v ≡ oidc_variables p env h claims)
            × ((caller_auth p env dates digest now faults (some h) (net, rows)).1.1 ≡ rows))
  unfolding caller_auth oidc_auth
  caller_auth-IsKnown now faults h net rows v e = elim (Bool-cases (is_bearer (some h))) [
    | inr other ↦ absurd (ground (arith, other, e))
    | inl bearer ↦ elim (Bool-cases (starts_with (bearer_token h) service_token_prefix)) [
      | inl service ↦
          let found = (verify_service_token dates digest now faults (bearer_token h) rows).0 in
          let (policy, verified, same) =
            token_passed (now / 1000) found v (rw (bearer, service, caller_auth) at e) in
          inl (service, policy, verified, same, rw (bearer, service, caller_auth) refl)
      | inr plain ↦
          let through : (oidc_auth p env (now / 1000) (some h) net).0
              ≡ (caller_auth p env dates digest now faults (some h) (net, rows)).0 =
            rw (bearer, plain, caller_auth, oidc_auth) refl in
          let (claims, valid, same) = oidc_passed p env h (now / 1000) net v (through ∙ e) in
          inr (plain, claims, valid, same, rw (bearer, plain, caller_auth) refl)
    ]
  ]
