-- ===== src/Oidc.antt =====
-- middleware/oidc.ts: the validation of an OIDC token, and the keys of its issuer. The decoding of the
-- parts of a token (`JSON.parse(atob(...))`), the verification of its signature (jose) and the network
-- are parameters. `now` is in seconds; `requested` records the URLs that the service hands to `fetch`; where a redirect
-- leads is up to the platform.
pub mod Checks
pub mod Fetching
pub mod Tests
use gpg_signing_service.Common.{
  ℕ, ◌+◌, String, Bool, true, false, Option, none, some, List, [], ◌∷◌, eqb, ltb, ◌&&◌, ◌||◌, not,
  ◌==◌, if◌then◌else◌, includes, any, find, truthy, truthy?, or_text, ◌+s◌, split, contains,
}
use gpg_signing_service.Common.Result.{Result, returns, throws, throw_if, ◌>>=◌, ◌>>◌}
use gpg_signing_service.Dict
use gpg_signing_service.Dict.{Dict}
use gpg_signing_service.UrlValidation.{Url, validate_url}

-- The header; its key id may be absent.
pub record Header : Type 0 where
  pub kid : Option String
  pub alg : String

pub data Audience : Type 0 where
  one : String → Audience
  many : List String → Audience

-- The claims that the service reads.
pub record OidcClaims : Type 0 where
  pub iss : String
  pub sub : String
  pub aud : Audience
  pub exp : Option ℕ
  pub nbf : Option ℕ
  pub repository : Option String
  pub project_path : Option String

pub record Jwk : Type 0 where
  pub kid : Option String
  pub use' : Option String

abbrev pub Jwks : Type 0
Jwks = List Jwk

-- What jose throws.
pub record JoseError : Type 0 where
  pub code : Option String
  pub message : String

pub data Verified : Type 0 where
  verified : OidcClaims → Verified
  failed : JoseError → Verified

-- A reply of the network: `response.ok`, and what its body is as JSON.
pub record Reply : Type 0 where
  pub ok : Bool
  pub jwks_uri : Result String
  pub jwks : Result Jwks

pub record Platform : Type 0 where
  pub decode_header : String → Option Header
  pub decode_claims : String → Option OidcClaims
  pub jwt_verify : String → Jwks → Verified
  pub parse_url : String → Option Url
  -- `fetchWithTimeout`
  pub fetch : String → Result Reply
  -- whether writing to the cache fails
  pub put_fails : Bool

-- The bindings of the worker that are read here.
pub record Settings : Type 0 where
  pub allowed_issuers : String
  pub expected_audience : Option String

-- The cache JWKS_CACHE, and the URLs requested so far, the last one first.
pub record Net : Type 0 where
  pub cache : Dict Jwks
  pub requested : List String

abbrev pub allowed_algorithms : List String
allowed_algorithms = "RS256" ∷ "RS384" ∷ "RS512" ∷ "ES256" ∷ "ES384" ∷ []

abbrev pub clock_skew_seconds : ℕ
clock_skew_seconds = 60

abbrev pub audiences : Audience → List String
audiences (one a) = a ∷ []
audiences (many as') = as'

-- `nbf && nbf > now + 60`, and `exp < now - 60`, false where a claim is missing
abbrev pub is_early : ℕ → Option ℕ → Bool
is_early now none = false
is_early now (some nbf) = ltb (now + clock_skew_seconds) nbf

abbrev pub is_late : ℕ → Option ℕ → Bool
is_late now none = false
is_late now (some exp) = ltb (exp + clock_skew_seconds) now

-- The part of `validateOIDCToken` between the decoding and the keys.
unfoldable pub check_claims : Settings → ℕ → Header → OidcClaims → Result (Unit {0})
unfolding split
check_claims env now header payload = do
  throw_if (not (includes allowed_algorithms header.alg)) ("Algorithm not allowed: " +s header.alg)
  throw_if (not (includes (split b',' env.allowed_issuers) payload.iss))
      ("Issuer not allowed: " +s payload.iss)
  throw_if (is_early now payload.nbf) "Token not yet valid"
  throw_if (is_late now payload.exp) "Token expired"
  throw_if
      (not (includes (audiences payload.aud) (or_text env.expected_audience "gpg-signing-service")))
      "Invalid token audience"

abbrev same : Option String → Option String → Bool
same none none = true
same (some a) (some b) = a == b
same _ _ = false

-- `key.kid === kid`
abbrev pub has_kid : Option String → Jwk → Bool
has_kid kid key = same key.kid kid

-- The pre-flight check on the matching key.
unfoldable pub check_key : Option String → Jwks → Result (Unit {0})
check_key kid jwks = elim (find (has_kid kid) jwks) [
  | none ↦ throws "Key not found"
  | some key ↦
      throw_if (truthy? key.use' && not (or_text key.use' "" == "sig"))
        "Key not intended for signatures"
]

-- The error that a failed verification is turned into.
unfoldable pub map_jose_error : JoseError → Result OidcClaims
unfolding contains
map_jose_error err =
    if or_text err.code "" == "ERR_JWKS_NO_MATCHING_KEY"
    then throws "Key not found"
    else if contains err.message "signature verification failed"
    then throws "Invalid token signature"
    else throws err.message

abbrev pub verification : Verified → Result OidcClaims
verification (verified claims) = returns claims
verification (failed err) = map_jose_error err

module _ (p : Platform) where
  open p use {decode_header, decode_claims, jwt_verify, parse_url, fetch, put_fails}

  abbrev pub well_known_url : String → String
  well_known_url issuer = issuer +s "/.well-known/openid-configuration"

  -- `validateUrl` in its `try`
  unfoldable pub guard_url : String → Result (Unit {0})
  guard_url url = elim (validate_url parse_url url) [
    | throws message ↦ throws ("SSRF protection: " +s message)
    | returns _ ↦ returns tt
  ]

  -- The request, whatever the URL is.
  abbrev pub request : String → Net → Result Reply × Net
  request url s = (fetch url, record s { requested = url ∷ s.requested })

  abbrev pub uri_of : String → Reply → Result String
  uri_of url reply = do
    throw_if (not reply.ok) ("Failed to fetch OIDC config from " +s url)
    reply.jwks_uri

  abbrev pub keys_of : String → Reply → Result Jwks
  keys_of uri reply = do throw_if (not reply.ok) ("Failed to fetch JWKS from " +s uri); reply.jwks

  abbrev pub keep_jwks : String → Result Jwks → Net → Result Jwks × Net
  keep_jwks issuer (throws e) s = (throws e, s)
  keep_jwks issuer (returns jwks) s = (
    returns jwks,
    if put_fails then s else record s { cache = Dict.set ("jwks:" +s issuer) jwks s.cache },
  )

  -- from the URI of the keys on
  unfoldable pub fetch_keys : String → Result String → Net → Result Jwks × Net
  unfolding guard_url
  fetch_keys issuer (throws e) s = (throws e, s)
  fetch_keys issuer (returns uri) s = elim (guard_url uri) [
    | throws e ↦ (throws e, s)
    | returns _ ↦ let (reply, s') = request uri s in keep_jwks issuer (reply >>= keys_of uri) s'
  ]

  unfoldable pub fetch_jwks : String → Net → Result Jwks × Net
  unfolding guard_url fetch_keys
  fetch_jwks issuer s = elim (guard_url (well_known_url issuer)) [
    | throws e ↦ (throws e, s)
    | returns _ ↦
        let (reply, s') = request (well_known_url issuer) s in
        fetch_keys issuer (reply >>= uri_of (well_known_url issuer)) s'
  ]

  -- `getJWKS`
  unfoldable pub get_jwks : String → Option String → Net → Result Jwks × Net
  unfolding fetch_jwks Dict.get
  get_jwks issuer expected_kid s = elim (Dict.get ("jwks:" +s issuer) s.cache) [
    | none ↦ fetch_jwks issuer s
    | some cached ↦
        if truthy? expected_kid && not (any (has_kid expected_kid) cached)
        then fetch_jwks issuer s
        else (returns cached, s)
  ]

  -- What follows once the keys are there.
  unfoldable pub verify_with : String → Header → Jwks → Result OidcClaims
  unfolding check_key map_jose_error
  verify_with token header jwks = do check_key header.kid jwks; verification (jwt_verify token jwks)

  abbrev decoded : String → String → Result (Header × OidcClaims)
  decoded h c = elim (decode_header h) [
    | none ↦ throws "Invalid token encoding"
    | some header ↦ elim (decode_claims c) [
      | none ↦ throws "Invalid token encoding"
      | some payload ↦ returns (header, payload)
    ]
  ]

  abbrev decoded_parts : List String → Result (Header × OidcClaims)
  decoded_parts (h ∷ c ∷ s ∷ []) =
      if truthy h && (truthy c && truthy s) then decoded h c else throws "Invalid token format"
  decoded_parts _ = throws "Invalid token format"

  -- The decoded token, if it has three parts that are not empty.
  unfoldable pub decode_token : String → Result (Header × OidcClaims)
  unfolding split
  decode_token token = decoded_parts (split b'.' token)

  unfoldable pub validate_decoded :
      String → Settings → ℕ → Header → OidcClaims → Net → Result OidcClaims × Net
  unfolding check_claims get_jwks verify_with
  validate_decoded token env now header payload s = elim (check_claims env now header payload) [
    | throws e ↦ (throws e, s)
    | returns _ ↦
        let (keys, s') = get_jwks payload.iss header.kid s in
        (keys >>= verify_with token header, s')
  ]

  -- `validateOIDCToken`
  unfoldable pub validate_oidc_token : String → Settings → ℕ → Net → Result OidcClaims × Net
  unfolding decode_token validate_decoded
  validate_oidc_token token env now s = elim (decode_token token) [
    | throws e ↦ (throws e, s)
    | returns (header, payload) ↦ validate_decoded token env now header payload s
  ]
