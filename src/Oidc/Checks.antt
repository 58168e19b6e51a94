-- ===== src/Oidc/Checks.antt =====
-- What an accepted OIDC token has been checked for.
use gpg_signing_service.Common.{
  ℕ, String, ◌≡◌, true, false, Option, some, includes, split, or_text, not, find, truthy?, ◌&&◌,
  ◌==◌, arith, Option-cases, inl, inr, ◌≢◌,
}
use gpg_signing_service.Common.Result.{returns, Result-cases}
use gpg_signing_service.Oidc.{
  Platform, Settings, Net, Header, OidcClaims, Jwks, Jwk, JoseError, Verified, verified, failed,
  has_kid, check_claims, check_key, verify_with, verification, map_jose_error, get_jwks,
  decode_token, validate_decoded, validate_oidc_token, allowed_algorithms, audiences, is_early,
  is_late,
}
use gpg_signing_service.Oidc.Fetching.{IsGuarded, get_jwks-IsGuarded}

-- What `check_claims` has found of a header and its claims.
pub record IsChecked (env : Settings) (now : ℕ) (header : Header) (payload : OidcClaims)
    : Type 0 where
  pub algorithm : includes allowed_algorithms header.alg ≡ true
  pub issuer : includes (split b',' env.allowed_issuers) payload.iss ≡ true
  pub not_early : is_early now payload.nbf ≡ false
  pub not_late : is_late now payload.exp ≡ false
  pub audience :
      includes (audiences payload.aud) (or_text env.expected_audience "gpg-signing-service") ≡ true

check_claims-IsChecked :
    (env : Settings) (now : ℕ) (header : Header) (payload : OidcClaims)
    → check_claims env now header payload ≡ returns tt
    → IsChecked env now header payload
unfolding check_claims
check_claims-IsChecked env now header payload h = ground arith

map_jose_error-throws : (e : JoseError) (c : OidcClaims) → map_jose_error e ≢ returns c
unfolding map_jose_error
map_jose_error-throws e c h = ground arith

verification-verified :
    (v : Verified) (claims : OidcClaims) → verification v ≡ returns claims → v ≡ verified claims
verification-verified (verified c) claims h = ground arith
verification-verified (failed e) claims h = absurd (map_jose_error-throws e claims h)

-- A key for signatures that has the key id of the header.
abbrev pub HasSigningKey : Option String → Jwks → Type 0
HasSigningKey kid jwks =
    (key : Jwk) × (find (has_kid kid) jwks ≡ some key)
    × ((truthy? key.use' && not (or_text key.use' "" == "sig")) ≡ false)

check_key-HasSigningKey :
    (kid : Option String) (jwks : Jwks) → check_key kid jwks ≡ returns tt → HasSigningKey kid jwks
unfolding check_key
check_key-HasSigningKey kid jwks h = elim (Option-cases (find (has_kid kid) jwks)) [
  | inl missing ↦ absurd (ground (arith, missing))
  | inr (key, found) ↦ (key, found, ground (arith, found))
]

verify_with-signed :
    (p : Platform) (token : String) (header : Header) (keys : Jwks) (claims : OidcClaims)
    → verify_with p token header keys ≡ returns claims
    → HasSigningKey header.kid keys × (p.jwt_verify token keys ≡ verified claims)
unfolding verify_with
verify_with-signed p token header keys claims h = elim (Result-cases (check_key header.kid keys)) [
  | inr (e, refused) ↦ absurd (ground (arith, refused))
  | inl (_, passed) ↦ (
    check_key-HasSigningKey header.kid keys passed,
    verification-verified (p.jwt_verify token keys) claims (ground (arith, passed)),
  )
]

module _ (p : Platform) (token : String) (env : Settings) (now : ℕ) (s : Net) where
  -- The evidence for an accepted token.
  pub record IsGenuine (claims : OidcClaims) : Type 0 where
    pub header : Header
    pub payload : OidcClaims
    pub keys : Jwks
    pub decodes : decode_token p token ≡ returns (header, payload)
    pub checked : IsChecked env now header payload
    pub keys_of_issuer : (get_jwks p payload.iss header.kid s).0 ≡ returns keys
    pub signing_key : HasSigningKey header.kid keys
    pub signed : p.jwt_verify token keys ≡ verified claims

  genuine :
      (header : Header) (payload claims : OidcClaims)
      → decode_token p token ≡ returns (header, payload)
      → (validate_decoded p token env now header payload s).0 ≡ returns claims
      → IsGenuine claims
  unfolding validate_decoded
  genuine header payload claims d h = elim (Result-cases (check_claims env now header payload)) [
    | inr (e, bad) ↦ absurd (ground (arith, bad))
    | inl (_, good) ↦ elim (Result-cases (get_jwks p payload.iss header.kid s).0) [
      | inr (e, none_there) ↦ absurd (ground (arith, good, none_there))
      | inl (keys, there) ↦
          let (key, signed) =
            verify_with-signed p token header keys claims (ground (arith, good, there)) in
          record {
            header = header;
            payload = payload;
            keys = keys;
            decodes = d;
            checked = check_claims-IsChecked env now header payload good;
            keys_of_issuer = there;
            signing_key = key;
            signed = signed;
          }
    ]
  ]

  -- An accepted token decodes to a header and claims with an allowed algorithm, an allowed issuer,
  -- times within the tolerance where they are given, and the expected audience; the keys obtained
  -- for its issuer hold a key for signatures with its key id; the signature verifies with these
  -- keys, and the claims that are answered are the verified ones.
  pub validate_oidc_token-IsGenuine :
      (claims : OidcClaims)
      → (validate_oidc_token p token env now s).0 ≡ returns claims
      → IsGenuine claims
  unfolding validate_oidc_token
  validate_oidc_token-IsGenuine claims h = elim (Result-cases (decode_token p token)) [
    | inr (e, bad) ↦ absurd (ground (arith, bad))
    | inl ((header, payload), good) ↦ genuine header payload claims good (ground (arith, good))
  ]

  -- Whatever the token, and whatever the issuer's documents say: if all the URLs that the service has handed to `fetch`
  -- pass `validateUrl`, so do they after the token has been validated. Where the platform goes when a reply redirects it is
  -- not a part of this.
  pub validate_oidc_token-IsGuarded :
      IsGuarded p s → IsGuarded p (validate_oidc_token p token env now s).1
  unfolding validate_oidc_token validate_decoded
  validate_oidc_token-IsGuarded h = elim (Result-cases (decode_token p token)) [
    | inr (e, bad) ↦ rw (bad, validate_oidc_token) h
    | inl ((header, payload), good) ↦
        rw (good, validate_oidc_token)
          (elim (Result-cases (check_claims env now header payload)) [
            | inr (e, bad) ↦ rw (bad, validate_decoded) h
            | inl (_, fine) ↦
                rw (fine, validate_decoded) (get_jwks-IsGuarded p payload.iss header.kid s h)
          ])
  ]
