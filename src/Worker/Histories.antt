-- ===== src/Worker/Histories.antt =====
-- What any requests, one after another, make of the state.
use gpg_signing_service.Common.{
  ◌≡◌, ◌≢◌, refl, sym, ◌∙◌, ap, some, List, [], ◌∷◌, map, inl, inr, Bool-cases, ◌+s◌, All, length,
  arith,
}
use mathlib.Core.Path.{subst}
use gpg_signing_service.ServiceTokens.Usage.{unused}
use gpg_signing_service.Auth.{Passage, next, refuse, Variables, caller_auth}
use gpg_signing_service.Service.{Backend, World}
use gpg_signing_service.App.{sign_as, sign_endpoint}
use gpg_signing_service.App.Guarded.{admin_endpoint-unserved, admin_endpoint-cases, limited_world}
use gpg_signing_service.Worker.{
  Arrival, preflight, checking, fetching, signing, administering, invalid, unrouted, AdminArrival,
  AdminTarget, routed, SignArrival, Deployment, handle_target, administer, sign_valid, sign_invalid,
  serve, serve_all,
}
use gpg_signing_service.Worker
use gpg_signing_service.Worker.Effects.{Grows, Extends, Extends-suc}
use gpg_signing_service.Worker.Effects.Sign.{IsSigning, Signs, sign-Signs}
use gpg_signing_service.Worker.Effects.Admin.{Lawful, handle-Lawful}
use gpg_signing_service.Worker.Effects.Callers.{unused-rows_after}

module _ (B : Backend) (d : Deployment) where
  handle_target-Lawful :
      (target : AdminTarget) (w : World B) → Lawful B d w (handle_target B d target w).1
  unfolding handle_target
  handle_target-Lawful (routed call) w = handle-Lawful B d call w
  handle_target-Lawful Worker.AdminTarget.invalid w = (inl refl, λ hash h. h)
  handle_target-Lawful Worker.failing w = (inl refl, λ hash h. h)
  handle_target-Lawful Worker.AdminTarget.unrouted w = (inl refl, λ hash h. h)

  pub administer-Lawful : (a : AdminArrival) (w : World B) → Lawful B d w (administer B d a w).1
  unfolding administer
  administer-Lawful a w =
      elim (admin_endpoint-cases B (handle_target B d a.target) d.comparison d.admin_token a.ip
        a.call_fails a.now a.later a.answered_at w a.header) [
          | inl same ↦ subst (Lawful B d w) (sym same) (inl refl, λ hash h. h)
          | inr handled ↦ subst (Lawful B d w) (sym handled) (
              handle_target-Lawful a.target (
                limited_world B (handle_target B d a.target) d.comparison d.admin_token a.ip
                  a.call_fails a.now a.later a.answered_at w))
        ]

  -- Whatever the authentication leaves of the tokens, the handler keeps.
  pub sign_as-Signs :
      (a : SignArrival) (passage : Passage Variables) (w : World B)
      → Signs B w (sign_as B d.settings a.request a.course passage w).1
  unfolding sign_as
  sign_as-Signs a (refuse status message code) w = (refl, (refl, inl refl))
  sign_as-Signs a (next v) w =
      sign-Signs B d.settings (record a.request { variables = v }) a.course w

  -- The keys are the same, the tokens are but for their use, and at most one row has been written, about a signature.
  abbrev pub Confined : World B → World B → Type 0
  Confined w w' =
      (w'.keys ≡ w.keys)
      × ((map unused w'.tokens ≡ map unused w.tokens) × Grows IsSigning w.audit w'.audit)

  sign_valid-Confined : (a : SignArrival) (w : World B) → Confined w (sign_valid B d a w).1
  unfolding sign_valid sign_endpoint
  sign_valid-Confined a w =
      let (passage, (net, rows)) =
        caller_auth d.platform d.oidc d.dates d.digest a.now a.faults a.header (w.net, w.tokens) in
      let (same, (tokens, grows)) =
        sign_as-Signs a passage (record w { net = net; tokens = rows }) in
      (
        same,
        (
          ap (λ l. map unused l) tokens
              ∙ unused-rows_after d.platform d.oidc d.dates d.digest a.now a.faults a.header w.net
                  w.tokens,
          grows,
        ),
      )

  sign_invalid-Confined : (a : SignArrival) (w : World B) → Confined w (sign_invalid B d a w).1
  unfolding sign_invalid
  sign_invalid-Confined a w = (
    refl,
    (
      unused-rows_after d.platform d.oidc d.dates d.digest a.now a.faults a.header w.net w.tokens,
      inl refl,
    ),
  )

  -- A request to `/admin` does not bear the admin token.
  abbrev pub IsOrdinary : Arrival → Type 0
  IsOrdinary (administering a) = a.header ≢ some ("Bearer " +s d.admin_token)
  IsOrdinary _ = Unit

  serve-Confined : (a : Arrival) (w : World B) → IsOrdinary a → Confined w (serve B d a w).1
  unfolding serve administer
  serve-Confined preflight w o = (refl, (refl, inl refl))
  serve-Confined (checking timestamp rejects database) w o = (refl, (refl, inl refl))
  serve-Confined (fetching rejects query) w o = (refl, (refl, inl refl))
  serve-Confined (signing a) w o = elim (Bool-cases a.is_valid) [
    | inl h ↦ rw (h, serve) (sign_valid-Confined a w)
    | inr h ↦ rw (h, serve) (sign_invalid-Confined a w)
  ]
  serve-Confined (administering a) w o =
      let (_, same) =
        admin_endpoint-unserved B (handle_target B d a.target) d.comparison d.admin_token a.ip
          a.call_fails a.now a.later a.answered_at w a.header o in
      subst (Confined w) (sym same) (refl, (refl, inl refl))
  serve-Confined Worker.Arrival.invalid w o = (refl, (refl, inl refl))
  serve-Confined Worker.Arrival.unrouted w o = (refl, (refl, inl refl))

  -- If none of some requests bears the admin token, then, whatever they are, they leave every key as it is, and of the
  -- service tokens they change nothing but the times of their last use; the audit log keeps all its rows, and gets at
  -- most one row for each request, about a signature.
  pub serve_all-confined :
      (arrivals : List Arrival) (w : World B)
      → All IsOrdinary arrivals
      → ((serve_all B d arrivals w).keys ≡ w.keys)
        × ((map unused (serve_all B d arrivals w).tokens ≡ map unused w.tokens)
            × Extends IsSigning (length arrivals) w.audit (serve_all B d arrivals w).audit)
  unfolding serve_all
  serve_all-confined [] w o = (refl, (refl, ([], (refl, (tt, omega arith)))))
  serve_all-confined (a ∷ rest) w (first, others) =
      let (keys, (tokens, grows)) = serve-Confined a w first in
      let (keys', (tokens', extends)) = serve_all-confined rest (serve B d a w).1 others in
      (
        keys' ∙ keys,
        (
          tokens' ∙ tokens,
          Extends-suc IsSigning (length rest) w.audit (serve B d a w).1.audit
              (serve_all B d rest (serve B d a w).1).audit grows extends,
        ),
      )
