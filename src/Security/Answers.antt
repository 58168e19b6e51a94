-- ===== src/Security/Answers.antt =====
-- The headers of every answer: `productionCors` behind `securityHeaders`, in the order of index.ts.
use gpg_signing_service.Common.{
  String, ◌≡◌, ◌↔◌, refl, sym, ◌∙◌, true, Option, none, some, [], ◌∷◌, ◌||◌, includes,
}
use gpg_signing_service.Dict
use gpg_signing_service.Dict.{Dict}
use gpg_signing_service.Security.{Cors, preflight, continued, allowed_origins, production_cors}
use gpg_signing_service.Security.Headers.{
  csp_of, set_fixed, get-expose, security_headers, get-security_headers,
}
use gpg_signing_service.Security.Origins.{allowed_by, is_unrestricted, allowed_by-production_cors}

-- What `productionCors` makes of the headers of the answer that follows; a preflight request is answered at once.
unfoldable pub cors_headers : Cors → Dict String → Dict String
unfolding Dict.set
cors_headers (preflight none) h = []
cors_headers (preflight (some origin)) h =
    ("Access-Control-Allow-Origin", origin)
    ∷ ("Access-Control-Allow-Methods", "GET, POST, DELETE, OPTIONS")
    ∷ ("Access-Control-Allow-Headers", "Authorization, Content-Type, X-Request-ID")
    ∷ ("Access-Control-Max-Age", "86400")
    ∷ []
cors_headers (continued none) h = h
cors_headers (continued (some origin)) h =
    Dict.set "Access-Control-Allow-Credentials" "true"
      (Dict.set "Access-Control-Allow-Origin" origin h)

unfoldable pub answer_headers :
    (setting : Option String)
    → (method : String) → (origin : Option String) → (path : String) → Dict String
    → Dict String
unfolding production_cors cors_headers security_headers
answer_headers setting method origin path h =
    security_headers path (cors_headers (production_cors setting method origin) h)

get-cors_headers :
    (c : Cors) (h : Dict String)
    → Dict.get "Access-Control-Allow-Origin" h ≡ none
    → Dict.get "Access-Control-Allow-Origin" (cors_headers c h) ≡ allowed_by c
unfolding cors_headers Dict.get
get-cors_headers (preflight none) h e = refl
get-cors_headers (preflight (some origin)) h e = refl
get-cors_headers (continued none) h e = e
get-cors_headers (continued (some origin)) h e = rw (Dict.get-set, Dict.get-set) refl

kept-security_headers :
    (path : String) (h : Dict String)
    → Dict.get "Access-Control-Allow-Origin" (security_headers path h)
      ≡ Dict.get "Access-Control-Allow-Origin" h
unfolding security_headers set_fixed
kept-security_headers path h =
    get-expose "Access-Control-Allow-Origin"
      (Dict.delete "X-Powered-By" (Dict.delete "Server" (set_fixed path h))) refl
    ∙ rw
        (
          Dict.get-delete, Dict.get-delete, Dict.get-set, Dict.get-set, Dict.get-set, Dict.get-set,
          Dict.get-set, Dict.get-set,
        )
        refl

-- Whatever the request and whatever headers its handler has set, if that did not allow an origin: the answer allows an
-- origin exactly if it is the one that the request names, and either `ALLOWED_ORIGINS` is not set or the origin is one of
-- the texts between its commas (an empty setting has one such text, the empty one, so that it allows no origin that has
-- any characters); and the answer has the content policy of its path, may not be framed, and does not name the server.
pub answer_headers-guarded :
    (setting : Option String) (method : String) (origin : Option String) (path : String)
    (h : Dict String) (o : String)
    → Dict.get "Access-Control-Allow-Origin" h ≡ none
    → ((Dict.get "Access-Control-Allow-Origin" (answer_headers setting method origin path h)
          ≡ some o)
        ↔ ((origin ≡ some o)
            × (is_unrestricted (allowed_origins setting) || includes (allowed_origins setting) o
                ≡ true)))
      × ((Dict.get "Content-Security-Policy" (answer_headers setting method origin path h)
            ≡ some (csp_of path))
          × (Dict.get "X-Frame-Options" (answer_headers setting method origin path h) ≡ some "DENY")
          × (Dict.get "Server" (answer_headers setting method origin path h) ≡ none)
          × (Dict.get "X-Powered-By" (answer_headers setting method origin path h) ≡ none))
unfolding answer_headers
answer_headers-guarded setting method origin path h o e =
    let c = production_cors setting method origin in
    let shown = kept-security_headers path (cors_headers c h) ∙ get-cors_headers c h e in
    let (to, from) = allowed_by-production_cors setting method origin o in
    (
      (λ given. to (sym shown ∙ given), λ listed. shown ∙ from listed),
      get-security_headers path (cors_headers c h),
    )
