-- ===== src/Worker/Effects/Callers.antt =====
-- What the authentication of the callers changes.
use gpg_signing_service.Common.{
  ℕ, String, ◌≡◌, refl, ◌∙◌, ap, Option, List, map, inl, inr, ◌⊎◌, Bool-cases, starts_with, skip,
}
use gpg_signing_service.Dates.{Dates}
use gpg_signing_service.Oidc.{Platform, Settings, Net}
use gpg_signing_service.ServiceTokens.{Faults, TokenRow, service_token_prefix, verify_service_token}
use gpg_signing_service.ServiceTokens.Lifecycle.{is_revoked, verify-is_revoked}
use gpg_signing_service.ServiceTokens.Usage.{unused, unused-verify}
use gpg_signing_service.Auth.{is_bearer, header_text, caller_auth}

module _ (p : Platform) (env : Settings) (dates : Dates) (digest : String → List ℕ) where
  module _ (now : ℕ) (faults : Faults) (header : Option String) (net : Net)
      (rows : List TokenRow) where
    abbrev pub rows_after : List TokenRow
    rows_after = (caller_auth p env dates digest now faults header (net, rows)).1.1

    -- The rows are as they were, or as the verification of a token leaves them.
    rows_after-cases :
        ((caller_auth p env dates digest now faults header (net, rows)).1.1 ≡ rows)
        ⊎ ((caller_auth p env dates digest now faults header (net, rows)).1.1
            ≡ (verify_service_token dates digest now faults (skip 7 (header_text header)) rows).1)
    unfolding caller_auth
    rows_after-cases = elim (Bool-cases (is_bearer header)) [
      | inr other ↦ inl (rw (other, caller_auth) refl)
      | inl bearer ↦
          elim (Bool-cases (starts_with (skip 7 (header_text header)) service_token_prefix)) [
            | inl service ↦ inr (rw (bearer, service, caller_auth) refl)
            | inr plain ↦ inl (rw (bearer, plain, caller_auth) refl)
          ]
    ]

    pub unused-rows_after : map unused rows_after ≡ map unused rows
    unused-rows_after = elim rows_after-cases [
      | inl same ↦ ap (λ l. map unused l) same
      | inr verified ↦
          ap (λ l. map unused l) verified
          ∙ unused-verify dates digest now faults (skip 7 (header_text header)) rows
    ]

    pub is_revoked-rows_after : (hash : String) → is_revoked hash rows_after ≡ is_revoked hash rows
    is_revoked-rows_after hash = elim rows_after-cases [
      | inl same ↦ ap (λ l. is_revoked hash l) same
      | inr verified ↦
          ap (λ l. is_revoked hash l) verified
          ∙ verify-is_revoked dates digest hash now faults (skip 7 (header_text header)) rows
    ]
