-- ===== src/Audit/Rows.antt =====
-- The rows of the table `audit_logs` as the database keeps them: what `logAuditEvent` of utils/audit.ts binds to its
-- statement, and `transformAuditLogRow` of utils/database.ts. What D1 returns is a record of columns, of any types.
use gpg_signing_service.Common.{
  ℕ, String, ◌≡◌, refl, Bool, true, false, Option, none, some, if◌then◌else◌, truthy, eqb, not,
}
use gpg_signing_service.Common.Result.{Result, returns, throws, ◌>>=◌}
use gpg_signing_service.Errors.{ErrorCode, error_code_text}
use gpg_signing_service.Audit.{AuditEntry, Recording, Metadata}
use gpg_signing_service.Audit.Query.{action_text}

-- A value of a column.
pub data Cell : Type 0 where
  null : Cell
  text : String → Cell
  number : ℕ → Cell
  boolean : Bool → Cell
  -- anything else, or no such column
  unknown : Cell

-- The columns of audit_logs.
pub record Columns : Type 0 where
  pub id : Cell
  pub timestamp : Cell
  pub request_id : Cell
  pub action : Cell
  pub issuer : Cell
  pub subject : Cell
  pub key_id : Cell
  pub success : Cell
  pub error_code : Cell
  pub metadata : Cell

-- A value that is a text, null, or undefined.
pub data Field : Type 0 where
  is_null is_undefined : Field
  is_text : String → Field

pub record LogEntry : Type 0 where
  pub id : String
  pub timestamp : String
  pub request_id : String
  pub action : String
  pub issuer : String
  pub subject : String
  pub key_id : String
  pub success : Bool
  pub error_code : Field
  pub metadata : Field

-- `value || null`
abbrev or_null : String → Cell
or_null s = if truthy s then text s else null

-- `json` is the JSON text of the metadata.
module _ (json : Metadata → String) where
  abbrev code_cell : Option ErrorCode → Cell
  code_cell none = null
  code_cell (some code) = text (error_code_text code)

  abbrev metadata_cell : Option Metadata → Cell
  metadata_cell none = null
  metadata_cell (some m) = or_null (json m)

  -- The values that are bound to the statement of `logAuditEvent`.
  abbrev pub bound : Recording → AuditEntry → Columns
  bound rec entry = record {
    id = text rec.id;
    timestamp = text rec.timestamp;
    request_id = text entry.request_id;
    action = text (action_text entry.action);
    issuer = text entry.issuer;
    subject = text entry.subject;
    key_id = text entry.key_id;
    success = number (if entry.success then 1 else 0);
    error_code = code_cell entry.error_code;
    metadata = metadata_cell entry.metadata;
  }

-- The types of D1AuditLogRowSchema; `message` is the message of zod for a row that does not have them.
module _ (message : Columns → String) where
  abbrev parse_text : Columns → Cell → Result String
  parse_text row (text s) = returns s
  parse_text row _ = throws (message row)

  -- `Boolean(parsed.success)`
  abbrev parse_success : Columns → Cell → Result Bool
  parse_success row (number n) = returns (not (eqb n 0))
  parse_success row (boolean b) = returns b
  parse_success row _ = throws (message row)

  abbrev parse_nullable : Columns → Cell → Result Field
  parse_nullable row (text s) = returns (is_text s)
  parse_nullable row null = returns is_null
  parse_nullable row _ = throws (message row)

  -- `parsed.metadata || undefined`
  abbrev or_undefined : Field → Field
  or_undefined (is_text s) = if truthy s then is_text s else is_undefined
  or_undefined _ = is_undefined

  unfoldable pub transform_audit_log_row : Columns → Result LogEntry
  transform_audit_log_row row = do
    id ← parse_text row row.id
    timestamp ← parse_text row row.timestamp
    request_id ← parse_text row row.request_id
    action ← parse_text row row.action
    issuer ← parse_text row row.issuer
    subject ← parse_text row row.subject
    key_id ← parse_text row row.key_id
    success ← parse_success row row.success
    error_code ← parse_nullable row row.error_code
    metadata ← parse_nullable row row.metadata
    returns (record {
      id = id;
      timestamp = timestamp;
      request_id = request_id;
      action = action;
      issuer = issuer;
      subject = subject;
      key_id = key_id;
      success = success;
      error_code = error_code;
      metadata = or_undefined metadata;
    })

module _ (json : Metadata → String) (message : Columns → String) where
  abbrev pub code_field : Option ErrorCode → Field
  code_field none = is_null
  code_field (some code) = is_text (error_code_text code)

  abbrev pub metadata_field : Option Metadata → Field
  metadata_field none = is_undefined
  metadata_field (some m) = is_text (json m)

  abbrev pub entry_of : Recording → AuditEntry → LogEntry
  entry_of rec entry = record {
    id = rec.id;
    timestamp = rec.timestamp;
    request_id = entry.request_id;
    action = action_text entry.action;
    issuer = entry.issuer;
    subject = entry.subject;
    key_id = entry.key_id;
    success = entry.success;
    error_code = code_field entry.error_code;
    metadata = metadata_field entry.metadata;
  }

  code_parsed :
      (row : Columns) (code : Option ErrorCode)
      → parse_nullable message row (code_cell json code) ≡ returns (code_field code)
  code_parsed row none = refl
  code_parsed row (some code) = refl

  -- what is parsed of the metadata
  abbrev parsed_metadata : Option Metadata → Field
  parsed_metadata none = is_null
  parsed_metadata (some m) = is_text (json m)

  module _ (full : (m : Metadata) → truthy (json m) ≡ true) where
    metadata_parsed :
        (row : Columns) (metadata : Option Metadata)
        → parse_nullable message row (metadata_cell json metadata)
          ≡ returns (parsed_metadata metadata)
    metadata_parsed row none = refl
    metadata_parsed row (some m) = rw (full m) refl

    metadata_kept :
        (metadata : Option Metadata)
        → or_undefined message (parsed_metadata metadata) ≡ metadata_field metadata
    metadata_kept none = refl
    metadata_kept (some m) = rw (full m) refl

  success_kept : (done : Bool) → not (eqb (if done then 1 else 0) 0) ≡ done
  success_kept true = refl
  success_kept false = refl

  -- If the JSON of metadata is never the empty text, then `transformAuditLogRow` makes of the row that `logAuditEvent`
  -- writes for an entry that entry again, with its identifier and its time; where the entry has no error code, the
  -- result has null, and where it has no metadata, undefined.
  pub transform_audit_log_row-bound :
      (rec : Recording) (entry : AuditEntry)
      → ((m : Metadata) → truthy (json m) ≡ true)
      → transform_audit_log_row message (bound json rec entry) ≡ returns (entry_of rec entry)
  unfolding transform_audit_log_row
  transform_audit_log_row-bound rec entry full =
      rw
        (
          code_parsed (bound json rec entry) entry.error_code,
          metadata_parsed full (bound json rec entry) entry.metadata,
          success_kept entry.success,
          metadata_kept full entry.metadata,
        )
        refl
