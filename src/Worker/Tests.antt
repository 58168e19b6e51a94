-- ===== src/Worker/Tests.antt =====
-- The worker on the concrete service.
use gpg_signing_service.Common.{
  ◌+◌, ◌-◌, ◌*◌, ◌≤◌, arith, ℕ, String, ◌≡◌, ◌≢◌, refl, true, false, Option, none, some, List, [],
  ◌∷◌, map, length, ◌+s◌, All, if◌then◌else◌,
}
use gpg_signing_service.Http.{ok}
use gpg_signing_service.Dates.Unary.{unary}
use gpg_signing_service.Oidc.Tests.{platform}
use gpg_signing_service.Oidc.Tests as OidcTests
use gpg_signing_service.Audit.Tests.{newest, texts}
use gpg_signing_service.Auth.Tests.{no_faults, codes, comparison, rows, bearer}
use gpg_signing_service.ServiceTokens.{TokenRow, hash_token}
use gpg_signing_service.ServiceTokens.Usage.{unused}
use gpg_signing_service.Service.{World}
use gpg_signing_service.Service.Sample.{backend, world}
use gpg_signing_service.Sign.Tests.{settings, request, course}
use gpg_signing_service.KeyRoutes.Tests.{upload_course}
use gpg_signing_service.TokenRoutes.Tests as TokenTests
use gpg_signing_service.Worker.{
  Arrival, fetching, signing, administering, unrouted, AdminArrival, routed, SignArrival,
  Deployment, AdminCall, deleting, minting, revoking, revoked, route_of, handle, serve, serve_all,
}
use gpg_signing_service.Worker.Declared.{declares}
use gpg_signing_service.Worker.Declared.Admin.{handle-declared}
use gpg_signing_service.Worker.Effects.{Extends, Anything}
use gpg_signing_service.Worker.Effects.Sign.{IsSigning}
use gpg_signing_service.Worker.Histories.{serve_all-confined}
use gpg_signing_service.RateLimiter.{window_ms, max_tokens, refill_rate}
use gpg_signing_service.Worker.Quota.{signatures_in, signatures_in-le-limit}
use gpg_signing_service.Worker.Revoked.{serve_all-audit, serve_all-revoked, refusal_of_token}

abbrev pub deployment : Deployment
deployment = record {
  platform = platform;
  oidc = OidcTests.settings;
  dates = unary;
  digest = codes;
  comparison = comparison;
  texts = texts;
  newest_rows = newest;
  newest_tokens = λ found. found;
  admin_token = "secret";
  settings = settings;
}

-- The world with one key and one token.
unfoldable token_world : World backend
unfolding world
token_world = record (world 60000) { tokens = rows }

abbrev by_caller : SignArrival
by_caller = record {
  header = some bearer;
  now = 1000;
  faults = no_faults;
  request = request;
  course = course;
  is_valid = true;
}

abbrev deletion : Option String → AdminArrival
deletion header = record {
  header = header;
  ip = "ip";
  call_fails = false;
  now = 10;
  later = 10;
  answered_at = 10;
  target = routed (deleting "r1" upload_course "A1B2C3D4E5F60718");
}

-- A caller signs, somebody guesses the admin token, and somebody asks for a key.
abbrev outsiders : List Arrival
outsiders =
    signing by_caller ∷ administering (deletion (some "Bearer guess")) ∷ fetching false none ∷ []

-- The administrator deletes the key, and the caller signs.
abbrev everyone : List Arrival
everyone = administering (deletion (some "Bearer secret")) ∷ signing by_caller ∷ unrouted ∷ []

abbrev mint : AdminCall
mint = minting "r1" TokenTests.course TokenTests.body

handle-declared_example :
    declares (route_of mint) (handle backend deployment mint token_world).0 ≡ true
handle-declared_example = handle-declared backend deployment mint token_world

guessed : some "Bearer guess" ≢ some ("Bearer " +s "secret")
guessed e = cc

serve_all-confined_example :
    ((serve_all backend deployment outsiders token_world).keys ≡ token_world.keys)
    × ((map unused (serve_all backend deployment outsiders token_world).tokens
          ≡ map unused token_world.tokens)
        × Extends IsSigning
            (length outsiders)
            token_world.audit
            (serve_all backend deployment outsiders token_world).audit)
serve_all-confined_example =
    serve_all-confined backend deployment outsiders token_world (tt, (guessed, (tt, tt)))

serve_all-audit_example :
    Extends Anything
      (length everyone)
      token_world.audit
      (serve_all backend deployment everyone token_world).audit
serve_all-audit_example = serve_all-audit backend deployment everyone token_world

abbrev minted_row : TokenRow
minted_row = record {
  id = "1";
  name = "ci";
  token_hash = hash_token codes "gst_abc";
  key_ids = "A1B2C3D4E5F60718";
  created_at = "T";
  expires_at = none;
  revoked_at = none;
  last_used_at = none;
}

abbrev revocation : AdminCall
revocation = revoking "r1" TokenTests.course "1"

serve_all-revoked_example :
    ((handle backend deployment revocation token_world).0
      ≡ record { status = ok; payload = revoked "1" })
    × ((serve backend deployment (signing by_caller) (
          serve_all backend deployment everyone
            (handle backend deployment revocation token_world).1)).0
        ≡ refusal_of_token backend deployment none)
unfolding token_world hash_token codes gpg_signing_service.Common.starts_with
serve_all-revoked_example =
    serve_all-revoked backend deployment "r1" TokenTests.course minted_row "gst_abc" token_world
      everyone by_caller refl refl refl refl refl

-- The caller signs twice.
abbrev calls : List SignArrival
calls = by_caller ∷ by_caller ∷ []

abbrev caller : String
caller = "urn:gpg-signing-service:token:ci"

signatures_in-le-limit_example :
    window_ms * signatures_in backend deployment caller calls token_world
    ≤ window_ms * max_tokens + refill_rate * (60000 - 0)
unfolding token_world
signatures_in-le-limit_example =
    signatures_in-le-limit backend deployment caller calls 0 60000 token_world tt
      (omega arith, (omega arith, omega arith))
