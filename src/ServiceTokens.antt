-- ===== src/ServiceTokens.antt =====
-- utils/service-tokens.ts, over the table `service_tokens` of the database (migrations/0002).
-- Each SQL statement of the source is a function on the rows. The hash of a token is
-- a parameter: `digest` is SHA-256 of the token's UTF-8 bytes.
pub mod KeyIds
pub mod Lifecycle
pub mod Usage
use gpg_signing_service.Common.{
  ℕ, zero, suc, ◌-◌, ◌/◌, ◌%◌, ◌<◌, code, String, Bool, true, false, Option, none, some, List, [],
  ◌∷◌, map, eqb, ltb, ◌&&◌, ◌||◌, not, ◌==◌, if◌then◌else◌, any, find, keep, truthy, truthy?, ◌+s◌,
  split, join, trim, is_some,
}
use gpg_signing_service.Common.Result.{Result, returns, throws}
use gpg_signing_service.Dates.{Dates}

abbrev pub service_token_prefix : String
service_token_prefix = "gst_"

-- How the two statements of a verification fail: the message with which the SELECT rejects, and whether the write of the
-- usage stamp does.
pub record Faults : Type 0 where
  pub select_fails : Option String
  pub stamp_fails : Bool

pub record TokenRow : Type 0 where
  pub id : String
  pub name : String
  pub token_hash : String
  pub key_ids : String
  pub created_at : String
  pub expires_at : Option String
  pub revoked_at : Option String
  pub last_used_at : Option String

pub record ServiceTokenPolicy : Type 0 where
  pub id : String
  pub name : String
  -- `none`: every key
  pub allowed_key_ids : Option (List String)

-- `byte.toString(16).padStart(2, "0")`
hex_char : ℕ → String → String
hex_char n String.[] = ""
hex_char n (String.◌∷◌ c s) = if eqb n 0 then String.◌∷◌ c "" else hex_char (n - 1) s

byte_hex : ℕ → String
unfolding hex_char
byte_hex b = hex_char (b / 16) "0123456789abcdef" +s hex_char (b % 16) "0123456789abcdef"

concat_hex : List ℕ → String
concat_hex [] = ""
concat_hex (b ∷ bs) = byte_hex b +s concat_hex bs

unfoldable pub hash_token : (digest : String → List ℕ) → String → String
unfolding byte_hex concat_hex
hash_token digest token = concat_hex (digest token)

-- the replacements of `generateToken`, on what `btoa` gives for 32 random bytes
pub url_safe : String → String
url_safe String.[] = ""
url_safe (String.◌∷◌ c s) =
    if eqb (code c) b'+'
    then String.◌∷◌ "-" (url_safe s)
    else if eqb (code c) b'/'
    then String.◌∷◌ "_" (url_safe s)
    else if eqb (code c) b'='
    then url_safe s
    else String.◌∷◌ c (url_safe s)

unfoldable pub generate_token : (base64 : String) → String
unfolding url_safe
generate_token base64 = service_token_prefix +s url_safe base64

abbrev pub has_hash : String → TokenRow → Bool
has_hash hash row = row.token_hash == hash

-- The unique columns of the table: id, name and token_hash.
abbrev pub clashes : TokenRow → TokenRow → Bool
clashes new row = row.id == new.id || (row.name == new.name || row.token_hash == new.token_hash)

-- INSERT INTO service_tokens
unfoldable pub insert_row : TokenRow → List TokenRow → Result (List TokenRow)
insert_row new rows =
    if any (clashes new) rows then throws "UNIQUE constraint failed" else returns (new ∷ rows)

pub record TokenInput : Type 0 where
  pub name : String
  pub token : String
  pub key_ids : List String
  pub expires_at : Option String

-- `ids.length > 0 ? ids : null`
abbrev pub some_if_any : List String → Option (List String)
some_if_any [] = none
some_if_any (id ∷ ids) = some (id ∷ ids)

-- The list that `key_ids` stands for: split at commas, trimmed, without empty parts.
unfoldable pub parse_key_ids : String → Option (List String)
unfolding split trim
parse_key_ids s = some_if_any (keep truthy (map trim (split b',' s)))

-- UPDATE service_tokens SET last_used_at = ? WHERE id = ?
stamp : String → String → List TokenRow → List TokenRow
stamp time id [] = []
stamp time id (row ∷ rows) =
    (if row.id == id then record row { last_used_at = some time } else row) ∷ stamp time id rows

-- UPDATE service_tokens SET revoked_at = ? WHERE id = ? AND revoked_at IS NULL
pub revoke_rows : String → String → List TokenRow → List TokenRow
revoke_rows time id [] = []
revoke_rows time id (row ∷ rows) =
    (if row.id == id && not (is_some row.revoked_at)
      then record row { revoked_at = some time }
      else row)
    ∷ revoke_rows time id rows

abbrev pub is_revocable : String → TokenRow → Bool
is_revocable id row = row.id == id && not (is_some row.revoked_at)

-- What an administrator sees of a token.
pub record TokenSummary : Type 0 where
  pub id : String
  pub name : String
  pub key_ids : Option (List String)
  pub created_at : String
  pub expires_at : Option String
  pub revoked_at : Option String
  pub last_used_at : Option String

abbrev pub summary_of : TokenRow → TokenSummary
summary_of row = record {
  id = row.id;
  name = row.name;
  key_ids = parse_key_ids row.key_ids;
  created_at = row.created_at;
  expires_at = row.expires_at;
  revoked_at = row.revoked_at;
  last_used_at = row.last_used_at;
}

-- `newest_first` is what the database makes of `ORDER BY created_at DESC`.
unfoldable pub list_service_tokens :
    (newest_first : List TokenRow → List TokenRow) → List TokenRow → List TokenSummary
list_service_tokens newest_first rows = map summary_of (newest_first rows)

module _ (dates : Dates) (digest : String → List ℕ) where
  open dates use {to_iso, parse_date}

  abbrev pub new_row : String → ℕ → TokenInput → TokenRow
  new_row id now input = record {
    id = id;
    name = input.name;
    token_hash = hash_token digest input.token;
    key_ids = join "," input.key_ids;
    created_at = to_iso now;
    expires_at = input.expires_at;
    revoked_at = none;
    last_used_at = none;
  }

  -- `id` is the random identifier of the row.
  unfoldable pub insert_service_token :
      (id : String) → ℕ → TokenInput → List TokenRow → Result (String × List TokenRow)
  unfolding insert_row
  insert_service_token id now input rows = elim (insert_row (new_row id now input) rows) [
    | returns rows' ↦ returns (id, rows')
    | throws e ↦ throws e
  ]

  -- `Date.parse(row.expires_at) < Date.now()`, false for NaN
  unfoldable pub is_expired : ℕ → Option String → Bool
  is_expired now none = false
  is_expired now (some s) = truthy s && elim (parse_date s) [ none ↦ false | some t ↦ ltb t now ]

  abbrev policy_of : TokenRow → ServiceTokenPolicy
  policy_of row = record {
    id = row.id;
    name = row.name;
    allowed_key_ids = parse_key_ids row.key_ids;
  }

  accept : ℕ → Bool → TokenRow → List TokenRow → Option ServiceTokenPolicy × List TokenRow
  unfolding stamp
  accept now stamp_fails row rows =
      (some (policy_of row), if stamp_fails then rows else stamp (to_iso now) row.id rows)

  -- What follows once the database has answered the SELECT. `stamp_fails` says whether the write of the usage stamp fails,
  -- which is only logged.
  unfoldable pub verify_rows :
      ℕ → Bool → String → List TokenRow → Option ServiceTokenPolicy × List TokenRow
  unfolding is_expired accept
  verify_rows now stamp_fails token rows = elim (find (has_hash (hash_token digest token)) rows) [
    | none ↦ (none, rows)
    | some row ↦
        if truthy? row.revoked_at
        then (none, rows)
        else if is_expired now row.expires_at
        then (none, rows)
        else accept now stamp_fails row rows
  ]

  -- A rejection of the SELECT is not caught.
  unfoldable pub verify_service_token :
      ℕ → Faults → String → List TokenRow → Result (Option ServiceTokenPolicy) × List TokenRow
  unfolding verify_rows
  verify_service_token now faults token rows = elim faults.select_fails [
    | some message ↦ (throws message, rows)
    | none ↦
        let (policy, rows') = verify_rows now faults.stamp_fails token rows in
        (returns policy, rows')
  ]

  unfoldable pub revoke_service_token : ℕ → String → List TokenRow → Bool × List TokenRow
  unfolding revoke_rows
  revoke_service_token now id rows = (any (is_revocable id) rows, revoke_rows (to_iso now) id rows)
