-- ===== src/Auth/Tests.antt =====
-- The authentication on concrete headers. Texts are compared by the codes of their characters here.
use text.Mathlib.TextEquality.{Char-path}
use gpg_signing_service.Common.{
  ℕ, zero, suc, ◌/◌, code, Char, String, ◌≡◌, ◌↔◌, refl, ◌∙◌, ap, arith, Bool, true, false, Option,
  none, some, List, [], ◌∷◌, length, eqb, ◌&&◌, ◌⊎◌, starts_with, ◌+s◌, if◌then◌else◌,
}
use gpg_signing_service.Common.Result.{returns}
use gpg_signing_service.Dates.Unary.{unary}
use gpg_signing_service.Oidc.{OidcClaims, validate_oidc_token}
use gpg_signing_service.Oidc.Tests.{platform, settings, net}
use gpg_signing_service.ServiceTokens.{
  Faults, TokenRow, ServiceTokenPolicy, service_token_prefix, verify_service_token, hash_token,
}
use gpg_signing_service.Auth.{Comparison, caller_auth}
use gpg_signing_service.Auth.Caller.{
  bearer_token, policy_variables, oidc_token, oidc_variables, caller_auth-IsKnown,
}

unfoldable pub codes : String → List ℕ
codes String.[] = []
codes (String.◌∷◌ c s) = code c ∷ codes s

codes-injective : (a b : String) → codes a ≡ codes b → a ≡ b
unfolding codes
codes-injective String.[] String.[] e = refl
codes-injective String.[] (String.◌∷◌ d b) e = absurd (cc)
codes-injective (String.◌∷◌ c a) String.[] e = absurd (cc)
codes-injective (String.◌∷◌ c a) (String.◌∷◌ d b) e =
    let first : code c ≡ code d = ground arith in
    let rest : a ≡ b = codes-injective a b (ground arith) in
    ap (λ (x : Char). String.◌∷◌ x a) (Char-path c d first) ∙ ap (String.◌∷◌ d) rest

same : List ℕ → List ℕ → Bool
same [] [] = true
same (a ∷ as') (b ∷ bs) = eqb a b && same as' bs
same _ _ = false

same_iff : (a b : List ℕ) → length a ≡ length b → (same a b ≡ true) ↔ (a ≡ b)
unfolding same
same_iff [] [] e = (λ h. refl, λ h. refl)
same_iff [] (b ∷ bs) e = absurd (cc)
same_iff (a ∷ as') [] e = absurd (cc)
same_iff (a ∷ as') (b ∷ bs) e =
    let (to, from) = same_iff as' bs (omega arith) in
    (
      λ h.
          let first : a ≡ b = ground arith in
          ap (λ (x : ℕ). x ∷ as') first ∙ ap (List.◌∷◌ b) (to (ground arith)),
      λ h. let rest = from (ground arith) in ground (arith, rest),
    )

pub comparison : Comparison
unfolding codes same
comparison = record {
  encode = codes;
  encode-injective = codes-injective;
  equal_bytes = same;
  equal_bytes_iff = same_iff;
}

abbrev admin_token : String
admin_token = "secret"

abbrev header : Option String
header = some "Bearer secret"

-- A table with one token, which is allowed one key.
abbrev pub rows : List TokenRow
rows =
    record {
      id = "1";
      name = "ci";
      token_hash = hash_token codes "gst_abc";
      key_ids = "A1B2C3D4E5F60718";
      created_at = "T";
      expires_at = none;
      revoked_at = none;
      last_used_at = none;
    }
    ∷ []

abbrev pub no_faults : Faults
no_faults = record { select_fails = none; stamp_fails = false }

abbrev pub policy : ServiceTokenPolicy
policy = record { id = "1"; name = "ci"; allowed_key_ids = some ("A1B2C3D4E5F60718" ∷ []) }

abbrev pub bearer : String
bearer = "Bearer gst_abc"

caller_auth-IsKnown_example :
    ((starts_with (bearer_token bearer) service_token_prefix ≡ true)
      × (found : ServiceTokenPolicy) × ((verify_service_token unary codes 1000 no_faults
            (bearer_token bearer)
            rows).0
          ≡ returns (some found))
      × (policy_variables 1 policy ≡ policy_variables (1000 / 1000) found)
      × ((caller_auth platform settings unary codes 1000 no_faults (some bearer) (net, rows)).1.0
          ≡ net))
    ⊎ ((starts_with (bearer_token bearer) service_token_prefix ≡ false)
        × (claims : OidcClaims) × ((validate_oidc_token platform
              (oidc_token platform settings bearer)
              settings
              (1000 / 1000)
              net).0
            ≡ returns claims)
        × (policy_variables 1 policy ≡ oidc_variables platform settings bearer claims)
        × ((caller_auth platform settings unary codes 1000 no_faults (some bearer) (net, rows)).1.1
            ≡ rows))
unfolding caller_auth codes verify_service_token hash_token gpg_signing_service.Common.starts_with
    gpg_signing_service.Common.skip gpg_signing_service.ServiceTokens.parse_key_ids
caller_auth-IsKnown_example =
    caller_auth-IsKnown platform settings unary codes 1000 no_faults bearer net rows
      (policy_variables 1 policy) refl
