-- ===== src/Audit.antt =====
-- schemas/audit.ts and `logAuditEvent` of utils/audit.ts: the audit log, as the rows of the table
-- `audit_logs` (migrations/0001 and 0002), the last one first.
pub mod Query
pub mod Rows
pub mod Matching
pub mod Tests
use gpg_signing_service.Common.{ℕ, String, Bool, Option, List, ◌∷◌, if◌then◌else◌}
use gpg_signing_service.Errors.{ErrorCode}

pub data AuditAction : Type 0 where
  sign key_upload key_rotate token_create token_revoke : AuditAction

-- What the log keeps as JSON.
pub data Metadata : Type 0 where
  -- the repository, or the path of the project, and the length of the data
  signed : Option String → ℕ → Metadata
  failed : String → Metadata
  -- the fingerprint, the algorithm, and the user or the subject
  uploaded : String → String → String → Metadata
  uploaded_x509 : String → String → String → Metadata
  failed_x509 : String → Metadata
  -- the time of expiry
  minted : Option String → Metadata

pub record AuditEntry : Type 0 where
  pub request_id : String
  pub action : AuditAction
  pub issuer : String
  pub subject : String
  pub key_id : String
  pub success : Bool
  pub error_code : Option ErrorCode
  pub metadata : Option Metadata

pub record AuditRow : Type 0 where
  pub id : String
  pub timestamp : String
  pub entry : AuditEntry

-- What writing an entry meets: the random identifier, the time, and whether the write fails, which
-- `scheduleBackgroundTask` only logs.
pub record Recording : Type 0 where
  pub id : String
  pub timestamp : String
  pub fails : Bool

abbrev pub row_of : Recording → AuditEntry → AuditRow
row_of rec entry = record { id = rec.id; timestamp = rec.timestamp; entry = entry }

abbrev pub log_audit_event : Recording → AuditEntry → List AuditRow → List AuditRow
log_audit_event rec entry rows = if rec.fails then rows else row_of rec entry ∷ rows
