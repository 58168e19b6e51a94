-- ===== src/Auth.antt =====
-- middleware/oidc.ts (`oidcAuth`, `adminAuth`, `timingSafeEqual`) and middleware/caller-auth.ts: who may
-- call the service. `claims_time` is `Math.floor(Date.now() / 1000)`.
pub mod Admin
pub mod Caller
pub mod Tests
use gpg_signing_service.Common.{
  ℕ, zero, suc, ◌+◌, ◌-◌, ◌/◌, String, ◌≡◌, ◌↔◌, Bool, true, false, Option, none, some, List, [],
  ◌∷◌, ◌++◌, eqb, ◌&&◌, not, if◌then◌else◌, length, truthy, ◌+s◌, starts_with, skip, split,
}
use gpg_signing_service.Common.Result.{Result, returns, throws}
use gpg_signing_service.Http.{internal_server_error, Status, unauthorized}
use gpg_signing_service.Keys.{create_identity}
use gpg_signing_service.Dates.{Dates}
use gpg_signing_service.Oidc.{
  Platform, Settings, Net, OidcClaims, Audience, one, validate_oidc_token,
}
use gpg_signing_service.ServiceTokens.{
  TokenRow, ServiceTokenPolicy, service_token_prefix, verify_service_token, Faults,
}

-- The variables that the authentication leaves for the handlers.
pub record Variables : Type 0 where
  pub oidc_claims : OidcClaims
  pub identity : String
  -- `none` where it is null or not set
  pub allowed_key_ids : Option (List String)

-- A middleware goes on, with something for what follows, or answers with an error.
pub data Passage (A : Type 0) : Type 0 where
  next : A → Passage A
  -- the status, the field `error`, and the field `code` if there is one
  refuse : Status → String → Option String → Passage A

abbrev pub missing_header : {A : Type 0} → Passage A
missing_header = refuse unauthorized "Missing authorization header" (some "AUTH_MISSING")

-- `authHeader?.startsWith("Bearer ")`
abbrev pub is_bearer : Option String → Bool
is_bearer none = false
is_bearer (some h) = starts_with h "Bearer "

abbrev pub header_text : Option String → String
header_text none = ""
header_text (some h) = h

-- `parts[1]`, undefined where there is none
abbrev pub second : List String → String
second (_ ∷ b ∷ _) = b
second _ = ""

abbrev pub oidc_passage : Result OidcClaims → Passage Variables
oidc_passage (throws message) = refuse unauthorized message (some "AUTH_INVALID")
oidc_passage (returns claims) = next (record {
  oidc_claims = claims;
  identity = create_identity claims.iss claims.sub;
  allowed_key_ids = none;
})

unfoldable pub oidc_auth : Platform → Settings → ℕ → Option String → Net → Passage Variables × Net
unfolding starts_with split
oidc_auth p env claims_time header s =
    if is_bearer header
    then (let token = second (split b' ' (header_text header)) in
        if truthy token
        then (let (claims, s') = validate_oidc_token p token env claims_time s in
            (oidc_passage claims, s'))
        else (refuse unauthorized "Missing token" none, s))
    else (missing_header, s)

-- `encoder.encode` and `crypto.subtle.timingSafeEqual`, which the platform implements.
pub record Comparison : Type 0 where
  pub encode : String → List ℕ
  pub encode-injective : (a b : String) → encode a ≡ encode b → a ≡ b
  pub equal_bytes : List ℕ → List ℕ → Bool
  -- documented for arrays of one length
  pub equal_bytes_iff : (a b : List ℕ) → length a ≡ length b → (equal_bytes a b ≡ true) ↔ (a ≡ b)

-- A new array of the size, with the bytes at its start and zeros behind them.
unfoldable pub padded : ℕ → List ℕ → List ℕ
padded zero bytes = []
padded (suc n) [] = 0 ∷ padded n []
padded (suc n) (b ∷ bytes) = b ∷ padded n bytes

unfoldable pub timing_safe_equal : Comparison → String → String → Bool
unfolding padded
timing_safe_equal c a b =
    let a_bytes = c.encode a in
    let b_bytes = c.encode b in
    let max_len = Prim.Native.Nat.max (length a_bytes) (length b_bytes) in
    c.equal_bytes (padded max_len a_bytes) (padded max_len b_bytes)
    && eqb (length a_bytes) (length b_bytes)

unfoldable pub admin_auth : Comparison → (admin_token : String) → Option String → Passage Unit
unfolding starts_with skip timing_safe_equal
admin_auth c admin_token header =
    if is_bearer header
    then if timing_safe_equal c (skip 7 (header_text header)) admin_token
      then next tt
      else refuse unauthorized "Invalid admin token" (some "AUTH_INVALID")
    else missing_header

abbrev pub service_token_issuer : String
service_token_issuer = "urn:gpg-signing-service:token"

abbrev pub synthetic_claims : ℕ → ServiceTokenPolicy → OidcClaims
synthetic_claims claims_time policy = record {
  iss = service_token_issuer;
  sub = policy.name;
  aud = one "gpg-signing-service";
  exp = some (claims_time + 60);
  nbf = none;
  repository = none;
  project_path = none;
}

abbrev pub token_passage : ℕ → Option ServiceTokenPolicy → Passage Variables
token_passage claims_time none = refuse unauthorized "Invalid service token" (some "AUTH_INVALID")
token_passage claims_time (some policy) = next (record {
  oidc_claims = synthetic_claims claims_time policy;
  identity = create_identity service_token_issuer policy.name;
  allowed_key_ids = policy.allowed_key_ids;
})

-- What a rejection of `verifyServiceToken` comes to, which nothing before the handler of errors catches, or its result.
abbrev pub verified_passage : ℕ → Result (Option ServiceTokenPolicy) → Passage Variables
verified_passage claims_time (throws message) =
    refuse internal_server_error "Internal server error" (some "INTERNAL_ERROR")
verified_passage claims_time (returns found) = token_passage claims_time found

-- `now` is in milliseconds.
unfoldable pub caller_auth :
    Platform
    → Settings
    → Dates
    → (digest : String → List ℕ) → ℕ
    → (faults : Faults) → Option String
    → Net × List TokenRow
    → Passage Variables × (Net × List TokenRow)
unfolding starts_with skip oidc_auth
caller_auth p env dates digest now faults header (net, rows) =
    let token = skip 7 (header_text header) in
    if is_bearer header
    then if starts_with token service_token_prefix
      then (let (policy, rows') = verify_service_token dates digest now faults token rows in
          (verified_passage (now / 1000) policy, (net, rows')))
      else (let (passage, net') = oidc_auth p env (now / 1000) header net in
          (passage, (net', rows)))
    else (missing_header, (net, rows))
