-- ===== src/Keys.antt =====
-- types/branded.ts and the shapes of schemas/keys.ts: key identifiers, fingerprints, armored keys,
-- and what the key storage can hold.
-- A JSON object is modelled by the texts of the fields that the source reads; a field that is absent
-- is `none`.
pub mod Format
pub mod Schema
use gpg_signing_service.Common.{
  ℕ, Char, code, String, Bool, true, false, Option, none, some, eqb, leb, ltb, ◌&&◌, ◌||◌, ◌+s◌,
  ◌==◌, if◌then◌else◌, all_chars, size, contains, utf16_length, not,
}
use gpg_signing_service.Common.Result.{Result, returns, throws, throw_if, ◌>>=◌, ◌>>◌}

-- [A-Fa-f0-9]
abbrev pub is_hex : ℕ → Bool
is_hex c = leb b'0' c && leb c b'9' || (leb b'A' c && leb c b'F' || leb b'a' c && leb c b'f')

-- `toUpperCase` of a hexadecimal digit
unfoldable pub upper_hex : Char → Char
upper_hex c =
    if eqb (code c) b'a'
    then "A"
    else if eqb (code c) b'b'
    then "B"
    else if eqb (code c) b'c'
    then "C"
    else if eqb (code c) b'd'
    then "D"
    else if eqb (code c) b'e'
    then "E"
    else if eqb (code c) b'f'
    then "F"
    else c

-- `toUpperCase` of a text of hexadecimal digits, which is all that the source applies it to
unfoldable pub to_upper : String → String
unfolding upper_hex
to_upper String.[] = ""
to_upper (String.◌∷◌ c s) = String.◌∷◌ (upper_hex c) (to_upper s)

-- /^[A-F0-9]{n}$/i
abbrev pub is_hex_of : ℕ → String → Bool
is_hex_of n s = eqb (size s) n && all_chars is_hex s

unfoldable pub create_key_id : String → Result String
create_key_id value = do
  throw_if (not (is_hex_of 16 value)) ("Invalid KeyId format: " +s value)
  returns (to_upper value)

unfoldable pub create_key_fingerprint : String → Result String
create_key_fingerprint value = do
  throw_if (not (is_hex_of 40 value)) ("Invalid KeyFingerprint format: " +s value)
  returns (to_upper value)

-- utils/constants.ts, LIMITS
abbrev pub max_key_size : ℕ
max_key_size = 10000

abbrev pub min_key_size : ℕ
min_key_size = 350

-- The length stands in the message in decimal; `shown` is how the language prints a number.
unfoldable pub create_armored_private_key : (shown : ℕ → String) → String → Result String
create_armored_private_key shown value = do
  throw_if (not (contains value "BEGIN PGP PRIVATE KEY BLOCK"))
      "Invalid ArmoredPrivateKey: missing PGP header"
  throw_if (not (contains value "END PGP PRIVATE KEY BLOCK"))
      "Invalid ArmoredPrivateKey: missing PGP footer"
  throw_if (ltb (utf16_length value) min_key_size || ltb max_key_size (utf16_length value))
      ("Invalid ArmoredPrivateKey length: " +s shown (utf16_length value))
  returns value

unfoldable pub create_identity : String → String → String
create_identity issuer subject = issuer +s ":" +s subject

-- A key as JSON.
pub record KeyData : Type 0 where
  pub kind : Option String
  pub key_id : Option String
  pub armored_private_key : Option String
  pub private_key_pem : Option String
  pub certificate_pem : Option String
  pub chain_pem : Option String
  pub fingerprint : Option String
  pub created_at : Option String
  pub algorithm : Option String

-- `StoredKey` and `StoredX509Key`
pub record StoredKey : Type 0 where
  pub armored_private_key : String
  pub key_id : String
  pub fingerprint : String
  pub created_at : String
  pub algorithm : String

pub record StoredX509Key : Type 0 where
  pub key_id : String
  pub private_key_pem : String
  pub certificate_pem : String
  pub chain_pem : Option String
  pub fingerprint : String
  pub created_at : String
  pub algorithm : String

pub data AnyStoredKey : Type 0 where
  pgp : StoredKey → AnyStoredKey
  x509 : StoredX509Key → AnyStoredKey

-- `"type" in key && key.type === "x509"`
abbrev pub is_x509_key : KeyData → Bool
is_x509_key key = elim key.kind [ none ↦ false | some kind ↦ kind == "x509" ]
