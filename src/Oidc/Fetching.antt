-- ===== src/Oidc/Fetching.antt =====
-- What the service fetches on the way to the keys of an issuer.
use gpg_signing_service.Common.{
  String, ◌≡◌, refl, true, false, Option, some, ◌&&◌, not, any, truthy?, ◌+s◌, arith, All,
  Bool-cases, Option-cases, inl, inr,
}
use gpg_signing_service.Common.Result.{
  throws_returns, Result, returns, throws, is_returned, Result-cases, ◌>>=◌,
}
use gpg_signing_service.Dict
use gpg_signing_service.UrlValidation.{validate_url}
use gpg_signing_service.Oidc.{
  Platform, Net, Jwks, has_kid, guard_url, request, fetch_keys, fetch_jwks, get_jwks, keep_jwks,
  uri_of, keys_of, well_known_url,
}

module _ (p : Platform) where
  -- Every URL that was handed to `fetch` passes the validation.
  abbrev pub IsGuarded : Net → Type 0
  IsGuarded s = All (λ url. is_returned (validate_url p.parse_url url) ≡ true) s.requested

  -- The requests stay guarded with one to a URL that the guard lets through.
  request-IsGuarded :
      (url : String) (s : Net)
      → guard_url p url ≡ returns tt
      → IsGuarded s
      → IsGuarded (request p url s).1
  unfolding guard_url
  request-IsGuarded url s e h = elim (Result-cases (validate_url p.parse_url url)) [
    | inl (_, fine) ↦ (rw fine refl, h)
    | inr (_, bad) ↦ absurd (throws_returns (rw (bad, guard_url) at e))
  ]

  keep_jwks-requested :
      (issuer : String) (r : Result Jwks) (s : Net)
      → (keep_jwks p issuer r s).1.requested ≡ s.requested
  keep_jwks-requested issuer (throws e) s = refl
  keep_jwks-requested issuer (returns jwks) s = ground arith

  fetch_keys-IsGuarded :
      (issuer : String) (uri : Result String) (s : Net)
      → IsGuarded s
      → IsGuarded (fetch_keys p issuer uri s).1
  unfolding fetch_keys
  fetch_keys-IsGuarded issuer (throws e) s h = h
  fetch_keys-IsGuarded issuer (returns uri) s h = elim (Result-cases (guard_url p uri)) [
    | inr (_, bad) ↦ rw (bad, fetch_keys) h
    | inl (tt, fine) ↦
        let (reply, s') = request p uri s in
        rw (fine, fetch_keys)
          (rw (keep_jwks-requested issuer (reply >>= keys_of p uri) s')
            (request-IsGuarded uri s fine h))
  ]

  fetch_jwks-IsGuarded :
      (issuer : String) (s : Net) → IsGuarded s → IsGuarded (fetch_jwks p issuer s).1
  unfolding fetch_jwks
  fetch_jwks-IsGuarded issuer s h = elim (Result-cases (guard_url p (well_known_url p issuer))) [
    | inr (_, bad) ↦ rw (bad, fetch_jwks) h
    | inl (tt, fine) ↦
        let (reply, s') = request p (well_known_url p issuer) s in
        rw (fine, fetch_jwks)
          (fetch_keys-IsGuarded issuer (reply >>= uri_of p (well_known_url p issuer)) s'
            (request-IsGuarded (well_known_url p issuer) s fine h))
  ]

  -- Cached keys are used as they are, and nothing is requested, if they hold the key id that the
  -- token names or the token names none.
  pub get_jwks-cached :
      (issuer : String) (kid : Option String) (s : Net) (cached : Jwks)
      → Dict.get ("jwks:" +s issuer) s.cache ≡ some cached
      → (truthy? kid && not (any (has_kid kid) cached)) ≡ false
      → get_jwks p issuer kid s ≡ (returns cached, s)
  unfolding get_jwks
  get_jwks-cached issuer kid s cached e h = rw (e, get_jwks) (rw h)

  -- Getting the keys of an issuer hands validated URLs only to `fetch`.
  pub get_jwks-IsGuarded :
      (issuer : String) (kid : Option String) (s : Net)
      → IsGuarded s
      → IsGuarded (get_jwks p issuer kid s).1
  unfolding get_jwks
  get_jwks-IsGuarded issuer kid s h = elim (Option-cases (Dict.get ("jwks:" +s issuer) s.cache)) [
    | inl missing ↦ rw (missing, get_jwks) (fetch_jwks-IsGuarded issuer s h)
    | inr (cached, found) ↦ elim (Bool-cases (truthy? kid && not (any (has_kid kid) cached))) [
      | inl stale ↦ rw (found, get_jwks) (rw stale (fetch_jwks-IsGuarded issuer s h))
      | inr fresh ↦ rw (get_jwks-cached issuer kid s cached found fresh) h
    ]
  ]
