-- ===== src/Worker/Revoked.antt =====
-- What every history of requests keeps: the rows of the audit log, and the revocation of a token.
use gpg_signing_service.Common.Result.{Result, returns, throws}
use gpg_signing_service.Common.{
  Option, ℕ, ◌/◌, Option-cases, String, ◌≡◌, refl, ◌∙◌, ap, true, none, some, List, [], ◌∷◌, inl,
  inr, Bool-cases, ◌+s◌, length, arith, starts_with, starts_with_append, skip-append, skip, find,
}
use gpg_signing_service.Http.{internal_server_error, ok, unauthorized}
use gpg_signing_service.Audit.{AuditRow}
use gpg_signing_service.Oidc.{Net}
use gpg_signing_service.ServiceTokens.{
  Faults, ServiceTokenPolicy, verify_service_token, TokenRow, service_token_prefix, hash_token,
  has_hash, revoke_service_token,
}
use gpg_signing_service.ServiceTokens.Lifecycle.{
  is_revoked, verify_of_is_revoked, revoke_rows-found,
}
use gpg_signing_service.Auth.{verified_passage, caller_auth}
use gpg_signing_service.Service.{Backend, World}
use gpg_signing_service.App.{sign_as, sign_endpoint}
use gpg_signing_service.TokenRoutes
use gpg_signing_service.TokenRoutes.{revoke_token, revoked}
use gpg_signing_service.Worker.{
  Arrival, preflight, checking, fetching, signing, administering, AdminArrival, SignArrival, Reply,
  denied, revoking, Deployment, handle, administer, sign_valid, sign_invalid, serve, serve_all,
}
use gpg_signing_service.Worker
use gpg_signing_service.Worker.Effects.{Grows, Extends, Extends-suc, Anything}
use gpg_signing_service.Worker.Effects.Sign.{IsSigning}
use gpg_signing_service.Worker.Effects.Admin.{Lawful}
use gpg_signing_service.Worker.Effects.Callers.{rows_after, is_revoked-rows_after}
use gpg_signing_service.Worker.Histories.{administer-Lawful, sign_as-Signs}

Grows-Anything :
    (rows rows' : List AuditRow) → Grows IsSigning rows rows' → Grows Anything rows rows'
Grows-Anything rows rows' (inl same) = inl same
Grows-Anything rows rows' (inr (row, (one, _))) = inr (row, (one, tt))

module _ (B : Backend) (d : Deployment) where
  abbrev rows_for : SignArrival → World B → List TokenRow
  rows_for a w =
      rows_after d.platform d.oidc d.dates d.digest a.now a.faults a.header w.net w.tokens

  kept :
      (a : SignArrival) (w : World B) (hash : String)
      → is_revoked hash w.tokens ≡ true
      → is_revoked hash (rows_for a w) ≡ true
  kept a w hash h =
      is_revoked-rows_after d.platform d.oidc d.dates d.digest a.now a.faults a.header w.net
        w.tokens hash
      ∙ h

  sign_valid-Lawful : (a : SignArrival) (w : World B) → Lawful B d w (sign_valid B d a w).1
  unfolding sign_valid sign_endpoint
  sign_valid-Lawful a w =
      let (passage, (net, rows)) =
        caller_auth d.platform d.oidc d.dates d.digest a.now a.faults a.header (w.net, w.tokens) in
      let w' : World B = record w { net = net; tokens = rows } in
      let (_, (tokens, grows)) = sign_as-Signs B d a passage w' in
      (
        Grows-Anything w.audit (sign_as B d.settings a.request a.course passage w').1.audit grows,
        λ hash h. ap (λ l. is_revoked hash l) tokens ∙ kept a w hash h,
      )

  serve-Lawful : (a : Arrival) (w : World B) → Lawful B d w (serve B d a w).1
  unfolding serve sign_invalid
  serve-Lawful preflight w = (inl refl, λ hash h. h)
  serve-Lawful (checking timestamp rejects database) w = (inl refl, λ hash h. h)
  serve-Lawful (fetching rejects query) w = (inl refl, λ hash h. h)
  serve-Lawful (signing a) w = elim (Bool-cases a.is_valid) [
    | inl h ↦ rw (h, serve) (sign_valid-Lawful a w)
    | inr h ↦ rw (h, serve, sign_invalid) (inl refl, λ hash e. kept a w hash e)
  ]
  serve-Lawful (administering a) w = administer-Lawful B d a w
  serve-Lawful Worker.Arrival.invalid w = (inl refl, λ hash h. h)
  serve-Lawful Worker.Arrival.unrouted w = (inl refl, λ hash h. h)

  -- The audit log is append-only: whatever the requests are, of administrators too, it keeps all its rows in their
  -- order, and gets at most one row for each request.
  pub serve_all-audit :
      (arrivals : List Arrival) (w : World B)
      → Extends Anything (length arrivals) w.audit (serve_all B d arrivals w).audit
  unfolding serve_all
  serve_all-audit [] w = ([], (refl, (tt, omega arith)))
  serve_all-audit (a ∷ rest) w =
      let (grows, _) = serve-Lawful a w in
      Extends-suc Anything (length rest) w.audit (serve B d a w).1.audit
        (serve_all B d rest (serve B d a w).1).audit grows (serve_all-audit rest (serve B d a w).1)

  serve_all-is_revoked :
      (hash : String) (arrivals : List Arrival) (w : World B)
      → is_revoked hash w.tokens ≡ true
      → is_revoked hash (serve_all B d arrivals w).tokens ≡ true
  unfolding serve_all
  serve_all-is_revoked hash [] w h = h
  serve_all-is_revoked hash (a ∷ rest) w h =
      let (_, kept') = serve-Lawful a w in
      serve_all-is_revoked hash rest (serve B d a w).1 (kept' hash h)

  -- What a revoked token is answered, by whether the SELECT rejects.
  abbrev pub refusal_of_token : Option String → Reply
  refusal_of_token none = record {
    status = unauthorized;
    payload = denied "Invalid service token" (some "AUTH_INVALID");
  }
  refusal_of_token (some message) = record {
    status = internal_server_error;
    payload = denied "Internal server error" (some "INTERNAL_ERROR");
  }

  abbrev unverified : Option String → Result (Option ServiceTokenPolicy)
  unverified none = returns none
  unverified (some message) = throws message

  unverified_token :
      (now : ℕ) (faults : Faults) (token : String) (rows : List TokenRow)
      → is_revoked (hash_token d.digest token) rows ≡ true
      → (verify_service_token d.dates d.digest now faults token rows).0
        ≡ unverified faults.select_fails
  unfolding verify_service_token
  unverified_token now faults token rows h = elim (Option-cases faults.select_fails) [
    | inr (message, e) ↦ rw (e, verify_service_token) refl
    | inl e ↦
        rw (e, verify_service_token)
          (ap (λ (x : Option ServiceTokenPolicy). returns x)
            (verify_of_is_revoked d.dates d.digest now faults.stamp_fails token rows h))
  ]

  refused_caller :
      (a : SignArrival) (token : String) (net : Net) (rows : List TokenRow)
      → a.header ≡ some ("Bearer " +s token)
      → starts_with token service_token_prefix ≡ true
      → is_revoked (hash_token d.digest token) rows ≡ true
      → (caller_auth d.platform d.oidc d.dates d.digest a.now a.faults a.header (net, rows)).0
        ≡ verified_passage (a.now / 1000) (unverified a.faults.select_fails)
  unfolding caller_auth skip starts_with
  refused_caller a token net rows header prefix h =
      let unknown = unverified_token a.now a.faults token rows h in
      rw
        (
          header,
          starts_with_append "Bearer " token,
          skip-append "Bearer " token,
          prefix,
          unknown,
          caller_auth,
        )
        refl

  sign_as-refused :
      (a : SignArrival) (w : World B)
      → (caller_auth d.platform d.oidc d.dates d.digest a.now a.faults a.header (w.net, w.tokens)).0
        ≡ verified_passage (a.now / 1000) (unverified a.faults.select_fails)
      → (serve B d (signing a) w).0 ≡ refusal_of_token a.faults.select_fails
  unfolding serve sign_valid sign_endpoint sign_as sign_invalid
  sign_as-refused a w e = elim (Option-cases a.faults.select_fails) [
    | inl answered ↦ rw answered (elim (Bool-cases a.is_valid) [
      | inl h ↦ rw (h, serve, sign_valid, sign_endpoint, rw answered at e, sign_as) refl
      | inr h ↦ rw (h, serve, sign_invalid, rw answered at e) refl
    ])
    | inr (message, rejects) ↦ rw rejects (elim (Bool-cases a.is_valid) [
      | inl h ↦ rw (h, serve, sign_valid, sign_endpoint, rw rejects at e, sign_as) refl
      | inr h ↦ rw (h, serve, sign_invalid, rw rejects at e) refl
    ])
  ]

  revoked_first :
      (request_id : String) (course : TokenRoutes.Course) (row : TokenRow) (token : String)
      (w : World B)
      → course.statement_fails ≡ none
      → find (has_hash (hash_token d.digest token)) w.tokens ≡ some row
      → row.revoked_at ≡ none
      → ((handle B d (revoking request_id course row.id) w).0
          ≡ record { status = ok; payload = Worker.revoked row.id })
        × (is_revoked
              (hash_token d.digest token)
              (handle B d (revoking request_id course row.id) w).1.tokens
            ≡ true)
  unfolding handle revoke_token revoked revoke_service_token
  revoked_first request_id course row token w works e n =
      let time = d.dates.to_iso course.executed_at in
      let (answer, done) =
        revoke_rows-found (hash_token d.digest token) time w.tokens row
          (d.dates.truthy-to_iso course.executed_at) e n in
      (
        rw (works, handle, revoke_token, answer, revoked) refl,
        rw (works, handle, revoke_token, answer, revoked) done,
      )

  -- When the administrator revokes a stored token that is not revoked yet, and the database executes the statement, the
  -- answer is 200; after any further requests, of administrators too, every request to `/sign` that bears the token,
  -- which starts with `gst_`, is answered 401, or 500 if the SELECT of its verification rejects.
  pub serve_all-revoked :
      (request_id : String) (course : TokenRoutes.Course) (row : TokenRow) (token : String)
      (w : World B) (arrivals : List Arrival) (a : SignArrival)
      → course.statement_fails ≡ none
      → find (has_hash (hash_token d.digest token)) w.tokens ≡ some row
      → row.revoked_at ≡ none
      → starts_with token service_token_prefix ≡ true
      → a.header ≡ some ("Bearer " +s token)
      → ((handle B d (revoking request_id course row.id) w).0
          ≡ record { status = ok; payload = Worker.revoked row.id })
        × ((serve B d
              (signing a)
              (serve_all B d arrivals (handle B d (revoking request_id course row.id) w).1)).0
            ≡ refusal_of_token a.faults.select_fails)
  serve_all-revoked request_id course row token w arrivals a works e n prefix header =
      let (answer, done) = revoked_first request_id course row token w works e n in
      let w1 = (handle B d (revoking request_id course row.id) w).1 in
      let w2 = serve_all B d arrivals w1 in
      (
        answer,
        sign_as-refused a w2 (
            refused_caller a token w2.net w2.tokens header prefix
              (serve_all-is_revoked (hash_token d.digest token) arrivals w1 done)),
      )
