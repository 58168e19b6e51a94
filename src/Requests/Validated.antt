-- ===== src/Requests/Validated.antt =====
-- What the handlers may take for granted of a request that its schema has accepted.
use gpg_signing_service.Common.{
  ℕ, ◌≤◌, String, ◌≡◌, ◌≢◌, ◌+s◌, refl, ap, Bool, true, false, none, some, List, [], ◌∷◌, all, All,
  leb, ◌&&◌, inl, inr, Bool-cases, arith, utf16_length,
}
use mathlib.Core.Path.{subst}
use gpg_signing_service.Keys.{is_hex_of, create_armored_private_key}
use gpg_signing_service.Keys.Format.{IsHexUpper, to_upper-IsHexUpper}
use gpg_signing_service.Keys.Schema.{is_armored, is_private_key_pem, is_certificate_pem}
use gpg_signing_service.Keys.Schema.Armor.{create_armored_private_key-is_armored}
use gpg_signing_service.KeyRoutes.{KeyUpload, X509KeyUpload}
use gpg_signing_service.TokenRoutes.{TokenCreate, key_ids_of}
use gpg_signing_service.ServiceTokens.KeyIds.{IsKeyId}
use gpg_signing_service.Requests.{
  Field, missing, mistyped, present, Parsed, accepted, refused, raised, requires, admits, text_of,
  option_of, RawKeyUpload, RawX509KeyUpload, RawTokenCreate, key_upload_of, parse_key_upload,
  parse_x509_key_upload, parse_token_create, is_token_name,
}

-- The value, if there is one.
value_or : {A : Type 0} → A → Parsed A → A
value_or a (accepted b) = b
value_or a _ = a

pub accepted-injective : {A : Type 0} {a b : A} → accepted a ≡ accepted b → a ≡ b
unfolding value_or
accepted-injective {A} {a} e = ap (value_or a) e

raised-accepted : {A : Type 0} {m : String} {a : A} → raised m ≢ accepted a
raised-accepted e = cc

pub refused-accepted : {A : Type 0} {a : A} → refused ≢ accepted a
refused-accepted e = cc

requires-text :
    (test : String → Bool) (f : Field String) → requires test f ≡ true → test (text_of f) ≡ true
requires-text test missing h = absurd (cc)
requires-text test mistyped h = absurd (cc)
requires-text test (present s) h = h

-- The checked parts of an accepted upload.
pub record IsUpload (body : KeyUpload) : Type 0 where
  pub armored : is_armored body.armored_private_key ≡ true
  pub long : 350 ≤ utf16_length body.armored_private_key
  pub key_id : IsHexUpper 16 body.key_id

key_upload_of-armored :
    (shown : ℕ → String) (armored : String) (key_id : Field String) (body : KeyUpload)
    → is_armored armored ≡ true
    → key_upload_of (create_armored_private_key shown armored) key_id ≡ accepted body
    → IsUpload body
unfolding key_upload_of
key_upload_of-armored shown armored key_id body h e =
    let transformed = create_armored_private_key-is_armored shown armored h in
    elim (Bool-cases (leb 350 (utf16_length armored))) [
      | inr short ↦ absurd (raised-accepted (rw (transformed, short, key_upload_of) at e))
      | inl long ↦ elim (Bool-cases (requires (is_hex_of 16) key_id)) [
        | inr other ↦ absurd (refused-accepted (rw (transformed, long, other, key_upload_of) at e))
        | inl hex ↦
            subst IsUpload (accepted-injective (rw (transformed, long, hex, key_upload_of) at e))
              (record {
                armored = h;
                long = ground (arith, long);
                key_id =
                    to_upper-IsHexUpper 16 (text_of key_id)
                      (requires-text (is_hex_of 16) key_id hex);
              })
      ]
    ]

pub parse_key_upload-IsUpload :
    (shown : ℕ → String) (raw : RawKeyUpload) (body : KeyUpload)
    → parse_key_upload shown raw ≡ accepted body
    → IsUpload body
unfolding parse_key_upload
parse_key_upload-IsUpload shown raw body e =
    elim (Bool-cases (requires is_armored raw.armored_private_key)) [
      | inr other ↦ absurd (refused-accepted (rw (other, parse_key_upload) at e))
      | inl h ↦
          key_upload_of-armored shown (text_of raw.armored_private_key) raw.key_id body
            (requires-text is_armored raw.armored_private_key h) (rw (h, parse_key_upload) at e)
    ]

-- A PGP key that is longer than 99 and shorter than 350 units and otherwise well-formed is not refused: validation throws.
pub parse_key_upload-raised :
    (shown : ℕ → String) (armored : String) (key_id : Field String)
    → is_armored armored ≡ true
    → leb 350 (utf16_length armored) ≡ false
    → parse_key_upload shown (record { armored_private_key = present armored; key_id = key_id })
      ≡ raised ("Invalid ArmoredPrivateKey length: " +s shown (utf16_length armored))
unfolding parse_key_upload key_upload_of
parse_key_upload-raised shown armored key_id h short =
    rw
      (
        h,
        create_armored_private_key-is_armored shown armored h,
        short,
        parse_key_upload,
        key_upload_of,
      )
      refl

parse_x509_key_upload-IsHexUpper :
    (raw : RawX509KeyUpload) (body : X509KeyUpload)
    → parse_x509_key_upload raw ≡ accepted body
    → IsHexUpper 16 body.key_id
unfolding parse_x509_key_upload
parse_x509_key_upload-IsHexUpper raw body e =
    let rest =
      requires is_private_key_pem raw.private_key_pem
      && (requires is_certificate_pem raw.certificate_pem
          && admits is_certificate_pem raw.chain_pem) in
    elim (Bool-cases (requires (is_hex_of 16) raw.key_id && rest)) [
      | inr other ↦ absurd (refused-accepted (rw (other, parse_x509_key_upload) at e))
      | inl valid ↦
          let hex : requires (is_hex_of 16) raw.key_id ≡ true = ground (arith, valid) in
          subst (λ (b : X509KeyUpload). IsHexUpper 16 b.key_id)
            (accepted-injective (rw (valid, parse_x509_key_upload) at e))
            (to_upper-IsHexUpper 16 (text_of raw.key_id)
              (requires-text (is_hex_of 16) raw.key_id hex))
    ]

all-IsKeyId : (ids : List String) → all (is_hex_of 16) ids ≡ true → All IsKeyId ids
all-IsKeyId [] h = tt
all-IsKeyId (id ∷ ids) h = (ground (arith, h), all-IsKeyId ids (ground (arith, h)))

key_ids-IsKeyId :
    (f : Field (List String))
    → admits (all (is_hex_of 16)) f ≡ true
    → All IsKeyId (elim (option_of f) as (λ x. List String) [ none ↦ [] | some ids ↦ ids ])
key_ids-IsKeyId missing h = tt
key_ids-IsKeyId mistyped h = absurd (cc)
key_ids-IsKeyId (present ids) h = all-IsKeyId ids h

pub parse_token_create-key_ids :
    (raw : RawTokenCreate) (body : TokenCreate)
    → parse_token_create raw ≡ accepted body
    → All IsKeyId (key_ids_of body)
unfolding parse_token_create
parse_token_create-key_ids raw body e =
    let rest = admits (λ n. leb 1 n && leb n 3650) raw.expires_in_days in
    elim (Bool-cases
      (requires is_token_name raw.name && (admits (all (is_hex_of 16)) raw.key_ids && rest))) [
        | inr other ↦ absurd (refused-accepted (rw (other, parse_token_create) at e))
        | inl valid ↦
            let hex : admits (all (is_hex_of 16)) raw.key_ids ≡ true = ground (arith, valid) in
            subst (λ (b : TokenCreate). All IsKeyId (key_ids_of b))
              (accepted-injective (rw (valid, parse_token_create) at e))
              (key_ids-IsKeyId raw.key_ids hex)
      ]
