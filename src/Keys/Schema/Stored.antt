-- ===== src/Keys/Schema/Stored.antt =====
-- A conforming key through its JSON and back.
use gpg_signing_service.Common.{
  ◌≤◌, String, ◌≡◌, refl, true, some, arith, or_text, truthy, utf16_length, leb, ap,
}
use gpg_signing_service.Common.Result.{returns}
use gpg_signing_service.Keys.{StoredKey, StoredX509Key, pgp, x509}
use gpg_signing_service.Keys.Format.{IsHexUpper}
use gpg_signing_service.Keys.Schema.{
  Zod, is_armored, is_private_key_pem, is_certificate_pem, passes?, is_stored_key,
  is_stored_x509_key, transform_armor, parse_any_stored_key, data_of, stored_of, stored_x509_of,
}
use gpg_signing_service.Keys.Schema.Armor.{create_armored_private_key-is_armored}

pub or_text_empty : (s : String) → or_text (some s) "" ≡ s
or_text_empty String.[] = refl
or_text_empty (String.◌∷◌ c s) = refl

-- A key that the schema admits and leaves as it is.
pub record IsConforming (z : Zod) (k : StoredKey) : Type 0 where
  pub armored : is_armored k.armored_private_key ≡ true
  pub long : 350 ≤ utf16_length k.armored_private_key
  pub key_id : IsHexUpper 16 k.key_id
  pub fingerprint : IsHexUpper 40 k.fingerprint
  pub created_at : z.is_datetime k.created_at ≡ true
  pub algorithm : truthy k.algorithm ≡ true

pub record IsConformingX509 (z : Zod) (k : StoredX509Key) : Type 0 where
  pub private_key : is_private_key_pem k.private_key_pem ≡ true
  pub certificate : is_certificate_pem k.certificate_pem ≡ true
  pub chain : passes? is_certificate_pem k.chain_pem ≡ true
  pub key_id : IsHexUpper 16 k.key_id
  pub fingerprint : IsHexUpper 40 k.fingerprint
  pub created_at : z.is_datetime k.created_at ≡ true
  pub algorithm : truthy k.algorithm ≡ true

module _ (z : Zod) where
  stored_of-data_of : (k : StoredKey) → IsConforming z k → stored_of z (data_of (pgp k)) ≡ k
  stored_of-data_of k v =
      rw
        (
          or_text_empty k.armored_private_key,
          or_text_empty k.key_id,
          or_text_empty k.fingerprint,
          or_text_empty k.created_at,
          or_text_empty k.algorithm,
          v.key_id.upper,
          v.fingerprint.upper,
        )
        refl

  stored_x509_of-data_of :
      (k : StoredX509Key) → IsConformingX509 z k → stored_x509_of z (data_of (x509 k)) ≡ k
  stored_x509_of-data_of k v =
      rw
        (
          or_text_empty k.private_key_pem,
          or_text_empty k.certificate_pem,
          or_text_empty k.key_id,
          or_text_empty k.fingerprint,
          or_text_empty k.created_at,
          or_text_empty k.algorithm,
          v.key_id.upper,
          v.fingerprint.upper,
        )
        refl

  transform_passes :
      (k : StoredKey) → IsConforming z k → transform_armor z (data_of (pgp k)) ≡ returns tt
  unfolding transform_armor
  transform_passes k v =
      let long : leb 350 (utf16_length k.armored_private_key) ≡ true = ground (arith, v.long) in
      rw
        (
          or_text_empty k.armored_private_key,
          v.armored,
          create_armored_private_key-is_armored z.shown k.armored_private_key v.armored,
          long,
        )
        refl

  conforms : (k : StoredKey) → IsConforming z k → is_stored_key z (data_of (pgp k)) ≡ true
  unfolding is_stored_key
  conforms k v = rw (v.armored, v.key_id.hex, v.fingerprint.hex, v.created_at, v.algorithm) refl

  conforms_x509 :
      (k : StoredX509Key) → IsConformingX509 z k → is_stored_x509_key z (data_of (x509 k)) ≡ true
  unfolding is_stored_x509_key
  conforms_x509 k v =
      rw
        (
          v.private_key, v.certificate, v.chain, v.key_id.hex, v.fingerprint.hex, v.created_at,
          v.algorithm,
        )
        refl

  -- A PGP key that conforms to the schema of stored keys, has at least 350 units of armor and its key id and fingerprint in
  -- upper case is read back from its JSON as it is.
  pub parse-data_of :
      (k : StoredKey)
      → IsConforming z k
      → parse_any_stored_key z (data_of (pgp k)) ≡ returns (pgp k)
  unfolding parse_any_stored_key
  parse-data_of k v =
      rw (transform_passes k v, conforms k v, parse_any_stored_key)
        (ap (λ s. returns (pgp s)) (stored_of-data_of k v))

  pub parse-data_of_x509 :
      (k : StoredX509Key)
      → IsConformingX509 z k
      → parse_any_stored_key z (data_of (x509 k)) ≡ returns (x509 k)
  unfolding parse_any_stored_key
  parse-data_of_x509 k v =
      rw (conforms_x509 k v, parse_any_stored_key)
        (ap (λ s. returns (x509 s)) (stored_x509_of-data_of k v))
