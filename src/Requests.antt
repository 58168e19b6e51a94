-- ===== src/Requests.antt =====
-- The schemas of the requests to the administration: KeyUploadSchema and X509KeyUploadSchema of schemas/keys.ts,
-- TokenCreateSchema of schemas/tokens.ts and AuditQuerySchema of schemas/audit.ts. A field of a body is a text, a number
-- and so on, or it is missing, or of another type.
pub mod Validated
pub mod Served
pub mod Searched
mod Tests
use gpg_signing_service.Common.{
  ℕ, code, String, Bool, true, false, Option, none, some, List, [], ◌∷◌, all, leb, eqb, ◌&&◌, ◌||◌,
  if◌then◌else◌, all_chars, utf16_length,
}
use gpg_signing_service.Common.Result.{Result, returns, throws}
use gpg_signing_service.Keys.{is_hex_of, to_upper, create_armored_private_key}
use gpg_signing_service.Keys.Schema.{is_armored, is_private_key_pem, is_certificate_pem}
use gpg_signing_service.KeyRoutes.{KeyUpload, X509KeyUpload}
use gpg_signing_service.TokenRoutes.{TokenCreate}
use gpg_signing_service.Audit.Query.{AuditQuery}

pub data Field (A : Type 0) : Type 0 where
  missing mistyped : Field A
  present : A → Field A

-- What validation comes to: a value, issues, or an error that a transform throws, which the library passes on.
pub data Parsed (A : Type 0) : Type 0 where
  accepted : A → Parsed A
  refused : Parsed A
  raised : String → Parsed A

-- A required field that passes a test, and an optional one, which passes a test if it is there.
abbrev pub requires : {A : Type 0} → (A → Bool) → Field A → Bool
requires test missing = false
requires test mistyped = false
requires test (present a) = test a

abbrev pub admits : {A : Type 0} → (A → Bool) → Field A → Bool
admits test missing = true
admits test mistyped = false
admits test (present a) = test a

abbrev pub text_of : Field String → String
text_of (present s) = s
text_of _ = ""

abbrev pub option_of : {A : Type 0} → Field A → Option A
option_of (present a) = some a
option_of _ = none

pub record RawKeyUpload : Type 0 where
  pub armored_private_key : Field String
  pub key_id : Field String

pub record RawX509KeyUpload : Type 0 where
  pub key_id : Field String
  pub private_key_pem : Field String
  pub certificate_pem : Field String
  pub chain_pem : Field String

pub record RawTokenCreate : Type 0 where
  pub name : Field String
  -- a list with another element than texts is of another type
  pub key_ids : Field (List String)
  -- a number that is no natural one is of another type
  pub expires_in_days : Field ℕ

-- The parameters of the query, which are texts where they are given once.
pub record RawAuditQuery : Type 0 where
  pub limit : Field String
  pub offset : Field String
  pub action : Field String
  pub subject : Field String
  pub start_date : Field String
  pub end_date : Field String

-- The upload whose armored key has passed its transform.
unfoldable pub key_upload_of : Result String → Field String → Parsed KeyUpload
unfolding to_upper
key_upload_of (throws message) key_id = raised message
key_upload_of (returns armored) key_id =
    if requires (is_hex_of 16) key_id
    then accepted (record { armored_private_key = armored; key_id = to_upper (text_of key_id) })
    else refused

-- KeyUploadSchema: the transform of the armored key runs where the checks of its field pass, and may throw.
unfoldable pub parse_key_upload : (shown : ℕ → String) → RawKeyUpload → Parsed KeyUpload
unfolding is_armored create_armored_private_key key_upload_of
parse_key_upload shown raw =
    if requires is_armored raw.armored_private_key
    then key_upload_of (create_armored_private_key shown (text_of raw.armored_private_key))
        raw.key_id
    else refused

-- X509KeyUploadSchema
unfoldable pub parse_x509_key_upload : RawX509KeyUpload → Parsed X509KeyUpload
unfolding is_private_key_pem is_certificate_pem to_upper
parse_x509_key_upload raw =
    if requires (is_hex_of 16) raw.key_id
      && (requires is_private_key_pem raw.private_key_pem
          && (requires is_certificate_pem raw.certificate_pem
              && admits is_certificate_pem raw.chain_pem))
    then accepted (record {
      key_id = to_upper (text_of raw.key_id);
      private_key_pem = text_of raw.private_key_pem;
      certificate_pem = text_of raw.certificate_pem;
      chain_pem = option_of raw.chain_pem;
    })
    else refused

-- [a-zA-Z0-9]
abbrev is_alphanumeric : ℕ → Bool
is_alphanumeric c =
    leb b'a' c && leb c b'z' || (leb b'A' c && leb c b'Z' || leb b'0' c && leb c b'9')

-- [a-zA-Z0-9._/-]
abbrev is_name_character : ℕ → Bool
is_name_character c =
    is_alphanumeric c || (eqb c b'.' || (eqb c b'_' || (eqb c b'/' || eqb c b'-')))

-- /^[a-zA-Z0-9][a-zA-Z0-9._/-]*$/
abbrev matches_name : String → Bool
matches_name String.[] = false
matches_name (String.◌∷◌ c s) = is_alphanumeric (code c) && all_chars is_name_character s

-- TokenNameSchema
unfoldable pub is_token_name : String → Bool
unfolding utf16_length
is_token_name s = leb 1 (utf16_length s) && (leb (utf16_length s) 64 && matches_name s)

-- TokenCreateSchema
unfoldable pub parse_token_create : RawTokenCreate → Parsed TokenCreate
unfolding is_token_name
parse_token_create raw =
    if requires is_token_name raw.name
      && (admits (all (is_hex_of 16)) raw.key_ids
          && admits (λ n. leb 1 n && leb n 3650) raw.expires_in_days)
    then accepted (record {
      name = text_of raw.name;
      key_ids = option_of raw.key_ids;
      expires_in_days = option_of raw.expires_in_days;
    })
    else refused

abbrev pub max_audit_logs : ℕ
max_audit_logs = 1000

-- `z.coerce.number().int()` with its bounds and its default; `to_number` is the natural number that `Number` makes of a
-- text, if it makes one.
abbrev pub coerced :
    (to_number : String → Option ℕ)
    → (is_within : ℕ → Bool) → (default : ℕ) → Field String
    → Option ℕ
coerced to_number is_within default missing = some default
coerced to_number is_within default mistyped = none
coerced to_number is_within default (present s) = elim (to_number s) [
  | none ↦ none
  | some n ↦ if is_within n then some n else none
]

-- AuditQuerySchema; `is_datetime` is `z.iso.datetime({ offset: true })`.
unfoldable pub audit_query_of :
    (is_datetime : String → Bool) → RawAuditQuery → Option ℕ → Option ℕ → Parsed AuditQuery
audit_query_of is_datetime raw (some limit) (some offset) =
    if admits (λ s. true) raw.action
      && (admits (λ s. true) raw.subject
          && (admits is_datetime raw.start_date && admits is_datetime raw.end_date))
    then accepted (record {
      limit = limit;
      offset = offset;
      action = option_of raw.action;
      subject = option_of raw.subject;
      start_date = option_of raw.start_date;
      end_date = option_of raw.end_date;
    })
    else refused
audit_query_of is_datetime raw _ _ = refused

unfoldable pub parse_audit_query :
    (to_number : String → Option ℕ)
    → (is_datetime : String → Bool) → RawAuditQuery
    → Parsed AuditQuery
unfolding audit_query_of
parse_audit_query to_number is_datetime raw =
    audit_query_of is_datetime raw
      (coerced to_number (λ n. leb 1 n && leb n max_audit_logs) 100 raw.limit)
      (coerced to_number (λ n. true) 0 raw.offset)
