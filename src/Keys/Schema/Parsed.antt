-- ===== src/Keys/Schema/Parsed.antt =====
-- What a parsed PGP key says of its JSON.
use gpg_signing_service.Common.{
  ◌≡◌, refl, Bool, true, false, not, inl, inr, Bool-cases, sym, ap, ◌∙◌,
}
use mathlib.Core.Bool.{true≢false}
use gpg_signing_service.Common.Result.{
  returns, throw_if, ◌>>◌, returns-injective, throws_returns, bind-returns,
}
use gpg_signing_service.Keys.{StoredKey, KeyData, AnyStoredKey, pgp, x509}
use gpg_signing_service.Keys.Schema.{
  Zod, is_stored_key, is_stored_x509_key, transform_armor, parse_any_stored_key, stored_of,
  stored_x509_of,
}

is_pgp : AnyStoredKey → Bool
is_pgp (pgp k) = true
is_pgp (x509 k) = false

pgp_or : StoredKey → AnyStoredKey → StoredKey
pgp_or k (pgp l) = l
pgp_or k (x509 l) = k

pub pgp-injective : (k l : StoredKey) → pgp k ≡ pgp l → k ≡ l
unfolding pgp_or
pgp-injective k l e = ap (pgp_or k) e

pub x509_pgp : (k : _) (l : StoredKey) → x509 k ≡ pgp l → ⊥
unfolding is_pgp
x509_pgp k l e = true≢false (sym (ap is_pgp e))

module _ (z : Zod) (d : KeyData) (k : StoredKey) where
  unguarded :
      is_stored_x509_key z d ≡ false
      → parse_any_stored_key z d ≡ (do
        transform_armor z d
        throw_if (not (is_stored_key z d)) (z.message d)
        returns (pgp (stored_of z d)))
  unfolding parse_any_stored_key
  unguarded h = rw (h, parse_any_stored_key) refl

  -- A PGP key that is parsed is made of the fields of its JSON, which has passed the schema.
  pub parse_pgp :
      parse_any_stored_key z d ≡ returns (pgp k) → (k ≡ stored_of z d) × (is_stored_key z d ≡ true)
  unfolding parse_any_stored_key
  parse_pgp e = elim (Bool-cases (is_stored_x509_key z d)) [
    | inl h ↦
        absurd
          (x509_pgp (stored_x509_of z d) k (returns-injective (rw (h, parse_any_stored_key) at e)))
    | inr h ↦
        let (_, (_, checked)) =
          bind-returns (transform_armor z d) _ (pgp k) (sym (unguarded h) ∙ e) in
        elim (Bool-cases (is_stored_key z d)) [
          | inl good ↦ (sym (pgp-injective _ _ (returns-injective (rw good at checked))), good)
          | inr bad ↦ absurd (throws_returns (rw bad at checked))
        ]
  ]
