-- ===== src/Oidc/Tests.antt =====
-- The validation of a concrete OIDC token, with its keys in the cache.
use gpg_signing_service.Common.{refl, true, false, none, some, [], ◌∷◌, ◌==◌, if◌then◌else◌}
use gpg_signing_service.Common.Result.{throws, returns}
use gpg_signing_service.Oidc.{
  Platform, Settings, Net, OidcClaims, Jwks, verified, one, validate_oidc_token,
}
use gpg_signing_service.Oidc.Checks.{
  IsGenuine, validate_oidc_token-IsGenuine, validate_oidc_token-IsGuarded,
}
use gpg_signing_service.Oidc.Fetching.{IsGuarded}

abbrev pub claims : OidcClaims
claims = record {
  iss = "https://issuer";
  sub = "repo";
  aud = one "gpg-signing-service";
  exp = some 2000;
  nbf = none;
  repository = some "repo";
  project_path = none;
}

abbrev keys : Jwks
keys = record { kid = some "k1"; use' = some "sig" } ∷ []

-- A platform that reads one token, and has no network.
abbrev pub platform : Platform
platform = record {
  decode_header = λ s. if s == "h" then some (record { kid = some "k1"; alg = "RS256" }) else none;
  decode_claims = λ s. if s == "c" then some claims else none;
  jwt_verify = λ token ks. verified claims;
  parse_url = λ s. some (record { protocol = "https:"; hostname = "issuer" });
  fetch = λ s. throws "no network";
  put_fails = false;
}

abbrev pub settings : Settings
settings = record { allowed_issuers = "https://issuer,https://other"; expected_audience = none }

abbrev pub net : Net
net = record { cache = ("jwks:https://issuer", keys) ∷ []; requested = [] }

validate_oidc_token-IsGenuine_example : IsGenuine platform "h.c.s" settings 1000 net claims
unfolding validate_oidc_token
validate_oidc_token-IsGenuine_example =
    validate_oidc_token-IsGenuine platform "h.c.s" settings 1000 net claims refl

-- A platform that answers with the keys.
abbrev connected : Platform
connected = record platform {
  fetch = λ s.
      returns (record { ok = true; jwks_uri = returns "https://issuer/keys"; jwks = returns keys });
}

abbrev uncached : Net
uncached = record { cache = []; requested = "https://issuer/old" ∷ [] }

validate_oidc_token-IsGuarded_example :
    IsGuarded connected (validate_oidc_token connected "h.c.s" settings 1000 uncached).1
unfolding gpg_signing_service.UrlValidation.validate_url
validate_oidc_token-IsGuarded_example =
    validate_oidc_token-IsGuarded connected "h.c.s" settings 1000 uncached (refl, tt)
