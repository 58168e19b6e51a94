-- ===== src/Signing/Validated.antt =====
-- What `parseAndValidateKey` returns is fit to be stored.
use gpg_signing_service.Common.{
  ℕ, String, ◌≡◌, refl, Bool, true, false, inl, inr, truthy, sym, ◌+s◌, eqb, if◌then◌else◌,
}
use mathlib.Core.Path.{subst}
use mathlib.Core.Bool.{true≢false}
use text.Mathlib.TextLemmas.{cons-append}
use gpg_signing_service.Common.Result.{returns, Result-cases, throws_returns, returns-injective}
use gpg_signing_service.Keys.{create_key_id, create_key_fingerprint, to_upper}
use gpg_signing_service.Keys.Format.{IsHexUpper, create_key_fingerprint-IsHexUpper}
use gpg_signing_service.Signing.{
  Pgp, ParsedKeyInfo, algorithm_name, parse_and_validate_key, checked,
}

either :
    (b : Bool) (s t : String)
    → truthy s ≡ true
    → truthy t ≡ true
    → truthy (if b then s else t) ≡ true
either true s t h k = h
either false s t h k = k

truthy_append : (s t : String) → truthy s ≡ true → truthy (s +s t) ≡ true
truthy_append String.[] t h = absurd (true≢false (sym h))
truthy_append (String.◌∷◌ c s) t h = rw cons-append refl

algorithm_name-truthy : (shown : ℕ → String) (n : ℕ) → truthy (algorithm_name shown n) ≡ true
unfolding algorithm_name
algorithm_name-truthy shown n = either (eqb n 1) _ _ refl (
    either (eqb n 2) _ _ refl (
      either (eqb n 3) _ _ refl (
        either (eqb n 16) _ _ refl (
          either (eqb n 17) _ _ refl (
            either (eqb n 18) _ _ refl (
              either (eqb n 19) _ _ refl (
                either (eqb n 22) _ _ refl (
                  truthy_append ("Unknown(" +s shown n) ")"
                    (truthy_append "Unknown(" (shown n) refl)))))))))

module _ (P : Pgp) (shown : ℕ → String) (armored passphrase : String) where
  abbrev pub IsFit : ParsedKeyInfo → Type 0
  IsFit info = IsHexUpper 40 info.fingerprint × (truthy info.algorithm ≡ true)

  pub parse_and_validate_key-IsFit :
      (info : ParsedKeyInfo)
      → parse_and_validate_key P shown armored passphrase ≡ returns info
      → IsFit info
  unfolding parse_and_validate_key
  parse_and_validate_key-IsFit info e = elim (Result-cases (P.read_private_key armored)) [
    | inr (m, r) ↦ absurd (throws_returns (rw (r, parse_and_validate_key) at e))
    | inl (key, r) ↦ elim (Result-cases (checked P passphrase key)) [
      | inr (m, c) ↦ absurd (throws_returns (rw (r, c, parse_and_validate_key) at e))
      | inl (done, c) ↦ elim (Result-cases (create_key_fingerprint (P.get_fingerprint key))) [
        | inr (m, f) ↦ absurd (throws_returns (rw (r, c, f, parse_and_validate_key) at e))
        | inl (fingerprint, f) ↦ elim (Result-cases (create_key_id (to_upper (P.get_key_id key)))) [
          | inr (m, i) ↦ absurd (throws_returns (rw (r, c, f, i, parse_and_validate_key) at e))
          | inl (id, i) ↦
              subst IsFit (returns-injective (rw (r, c, f, i, parse_and_validate_key) at e)) (
                create_key_fingerprint-IsHexUpper (P.get_fingerprint key) fingerprint f,
                algorithm_name-truthy shown (P.algorithm key),
              )
        ]
      ]
    ]
  ]
