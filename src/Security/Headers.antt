-- ===== src/Security/Headers.antt =====
-- `securityHeaders` of middleware/security.ts and `getRequestId` of middleware/request-id.ts. The headers of an answer are a
-- map from their names, which are written in one way only.
use gpg_signing_service.Common.{
  String, ◌≡◌, refl, ◌∙◌, false, Option, none, some, [], ◌∷◌, ◌==◌, if◌then◌else◌, join, or_text,
  is_some, arith,
}
use gpg_signing_service.Dict
use gpg_signing_service.Dict.{Dict}

abbrev pub default_csp : String
default_csp = "default-src 'none'; frame-ancestors 'none'"

unfoldable pub docs_csp : String
unfolding join
docs_csp = join "; " (
    "default-src 'none'"
    ∷ "script-src 'self' 'unsafe-inline' https://cdn.jsdelivr.net https://static.cloudflareinsights.com"
    ∷ "style-src 'self' 'unsafe-inline' https://cdn.jsdelivr.net" ∷ "img-src 'self' data:"
    ∷ "font-src 'self' data: https://cdn.jsdelivr.net"
    ∷ "connect-src 'self' https://cloudflareinsights.com" ∷ "frame-ancestors 'none'"
    ∷ "base-uri 'none'" ∷ "form-action 'none'" ∷ [])

abbrev pub csp_of : String → String
csp_of path = if path == "/ui" then docs_csp else default_csp

-- the headers that are set on every answer
unfoldable pub set_fixed : String → Dict String → Dict String
unfolding Dict.set
set_fixed path h =
    Dict.set "Strict-Transport-Security" "max-age=31536000; includeSubDomains; preload" (
      Dict.set "Permissions-Policy" "geolocation=(), microphone=(), camera=()" (
        Dict.set "Content-Security-Policy" (csp_of path) (
          Dict.set "Referrer-Policy" "strict-origin-when-cross-origin"
            (Dict.set "X-Frame-Options" "DENY" (Dict.set "X-Content-Type-Options" "nosniff" h)))))

unfoldable pub expose : Dict String → Dict String
unfolding Dict.get Dict.set
expose h =
    if is_some (Dict.get "X-RateLimit-Remaining" h)
    then Dict.set "Access-Control-Expose-Headers"
        "X-RateLimit-Limit, X-RateLimit-Remaining, X-RateLimit-Reset" h
    else h

-- What the middleware makes of the headers of the answer that follows it.
unfoldable pub security_headers : (path : String) → Dict String → Dict String
unfolding set_fixed expose Dict.delete
security_headers path h =
    expose (Dict.delete "X-Powered-By" (Dict.delete "Server" (set_fixed path h)))

-- `getRequestId`; the random identifier is an argument
abbrev pub get_request_id : (header : Option String) → (random : String) → String
get_request_id header random = or_text header random

pub get-expose :
    (name : String) (h : Dict String)
    → ("Access-Control-Expose-Headers" == name) ≡ false
    → Dict.get name (expose h) ≡ Dict.get name h
unfolding expose
get-expose name h other = ground (
  arith,
  other,
  Dict.get-set "Access-Control-Expose-Headers" name
      "X-RateLimit-Limit, X-RateLimit-Remaining, X-RateLimit-Reset" h,
)

-- Whatever headers a handler has set, the answer has the policy of its path, may not be framed, and does not name the
-- server.
pub get-security_headers :
    (path : String) (h : Dict String)
    → (Dict.get "Content-Security-Policy" (security_headers path h) ≡ some (csp_of path))
      × (Dict.get "X-Frame-Options" (security_headers path h) ≡ some "DENY")
      × (Dict.get "Server" (security_headers path h) ≡ none)
      × (Dict.get "X-Powered-By" (security_headers path h) ≡ none)
unfolding security_headers set_fixed
get-security_headers path h =
    let bare = Dict.delete "X-Powered-By" (Dict.delete "Server" (set_fixed path h)) in
    (
      get-expose "Content-Security-Policy" bare refl
          ∙ rw (Dict.get-delete, Dict.get-delete, Dict.get-set, Dict.get-set, Dict.get-set) refl,
      get-expose "X-Frame-Options" bare refl
          ∙ rw
              (
                Dict.get-delete, Dict.get-delete, Dict.get-set, Dict.get-set, Dict.get-set,
                Dict.get-set, Dict.get-set,
              )
              refl,
      get-expose "Server" bare refl ∙ rw (Dict.get-delete, Dict.get-delete) refl,
      get-expose "X-Powered-By" bare refl ∙ rw Dict.get-delete refl,
    )

-- The middleware `requestId`: what follows is given the identifier, and its answer the header.
unfoldable pub request_id :
    (header : Option String) → (random : String) → (next : String → Dict String) → Dict String
unfolding Dict.set
request_id header random next =
    let id = get_request_id header random in Dict.set "X-Request-ID" id (next id)

-- The answer has the identifier that the handler was given, whatever the handler sets, also behind `securityHeaders`.
pub get-request_id :
    (path : String) (header : Option String) (random : String) (next : String → Dict String)
    → Dict.get "X-Request-ID" (security_headers path (request_id header random next))
      ≡ some (get_request_id header random)
unfolding request_id security_headers set_fixed
get-request_id path header random next =
    let h = request_id header random next in
    get-expose "X-Request-ID" (Dict.delete "X-Powered-By" (Dict.delete "Server" (set_fixed path h)))
      refl
    ∙ rw
        (
          Dict.get-delete, Dict.get-delete, Dict.get-set, Dict.get-set, Dict.get-set, Dict.get-set,
          Dict.get-set, Dict.get-set, Dict.get-set,
        )
        refl
