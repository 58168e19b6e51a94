-- ===== src/Security/Tests.antt =====
-- The security middleware on concrete requests.
use gpg_signing_service.Common.{String, ◌≡◌, ◌↔◌, true, Option, some, ◌||◌, includes}
use gpg_signing_service.Common.{refl, none, []}
use gpg_signing_service.Dict
use gpg_signing_service.Security.{allowed_origins}
use gpg_signing_service.Security.Headers.{csp_of}
use gpg_signing_service.Security.Answers.{answer_headers, answer_headers-guarded}
use gpg_signing_service.Security.Origins.{is_unrestricted}

abbrev setting : Option String
setting = some "https://a.example,https://b.example"

abbrev origin : String
origin = "https://b.example"

answer_headers-guarded_example :
    ((Dict.get "Access-Control-Allow-Origin" (answer_headers setting "GET" (some origin) "/ui" [])
        ≡ some origin)
      ↔ ((some origin ≡ some origin)
          × (is_unrestricted (allowed_origins setting) || includes (allowed_origins setting) origin
              ≡ true)))
    × ((Dict.get "Content-Security-Policy" (answer_headers setting "GET" (some origin) "/ui" [])
          ≡ some (csp_of "/ui"))
        × (Dict.get "X-Frame-Options" (answer_headers setting "GET" (some origin) "/ui" [])
            ≡ some "DENY")
        × (Dict.get "Server" (answer_headers setting "GET" (some origin) "/ui" []) ≡ none)
        × (Dict.get "X-Powered-By" (answer_headers setting "GET" (some origin) "/ui" []) ≡ none))
unfolding Dict.get
answer_headers-guarded_example =
    answer_headers-guarded setting "GET" (some origin) "/ui" [] origin refl
