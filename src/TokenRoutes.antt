-- ===== src/TokenRoutes.antt =====
-- routes/tokens.ts: service tokens are minted, listed and revoked. A request is one that the authentication and the schemas
-- of schemas/tokens.ts have let through.
pub mod Minted
pub mod Tests
use gpg_signing_service.Common.{
  ℕ, zero, suc, ◌+◌, ◌*◌, String, Bool, true, false, Option, none, some, List, [], ◌∷◌,
  if◌then◌else◌, truthy, ◌+s◌, contains, join,
}
use mathlib.Core.Option
use gpg_signing_service.Common.Result.{Result, returns, throws}
use gpg_signing_service.Http.{Status, ok, created, not_found, conflict, internal_server_error}
use gpg_signing_service.Dates.{Dates}
use gpg_signing_service.ServiceTokens.{
  TokenRow, TokenInput, TokenSummary, some_if_any, generate_token, insert_service_token,
  list_service_tokens, revoke_service_token,
}
use gpg_signing_service.Errors.{
  ErrorCode, Outcome, success, failure, invalid_request, internal_error,
}
use gpg_signing_service.Audit.{
  AuditEntry, AuditAction, Metadata, token_create, token_revoke, minted, Recording, log_audit_event,
}
use gpg_signing_service.Service.{Backend, World}

-- TokenCreateSchema
pub record TokenCreate : Type 0 where
  pub name : String
  pub key_ids : Option (List String)
  pub expires_in_days : Option ℕ

-- TokenCreatedResponseSchema
pub record TokenCreated : Type 0 where
  pub id : String
  pub name : String
  pub token : String
  pub key_ids : Option (List String)
  pub expires_at : Option String

-- What the surroundings do during a request: the times that are read, for the expiry and by the statement, the random
-- values, and a message with which the database rejects the statement.
pub record Course : Type 0 where
  pub asked_at : ℕ
  pub executed_at : ℕ
  pub random_id : String
  pub random_base64 : String
  pub statement_fails : Option String
  pub recording : Recording

-- `body.keyIds ?? []`
abbrev pub key_ids_of : TokenCreate → List String
key_ids_of body = elim body.key_ids [ none ↦ [] | some ids ↦ ids ]

-- The time of expiry, in milliseconds.
abbrev pub expiry_of : TokenCreate → ℕ → Option ℕ
expiry_of body now = elim body.expires_in_days [
  | none ↦ none
  | some days ↦ elim days [ zero ↦ none | suc n ↦ some (now + suc n * 86400000) ]
]

-- `keyIds.join(",") || "*"`
abbrev pub audited_keys : List String → String
audited_keys ids = if truthy (join "," ids) then join "," ids else "*"

abbrev pub create_entry : String → TokenCreate → Option String → AuditEntry
create_entry request_id body expires_at = record {
  request_id = request_id;
  action = token_create;
  issuer = "admin";
  subject = body.name;
  key_id = audited_keys (key_ids_of body);
  success = true;
  error_code = none;
  metadata = some (minted expires_at);
}

abbrev pub revoke_entry : String → String → AuditEntry
revoke_entry request_id id = record {
  request_id = request_id;
  action = token_revoke;
  issuer = "admin";
  subject = id;
  key_id = "*";
  success = true;
  error_code = none;
  metadata = none;
}

-- the `catch` of the minting
unfoldable pub create_caught : String → String → Outcome TokenCreated
unfolding contains
create_caught name message =
    if contains message "UNIQUE constraint failed"
    then failure conflict ("Token name already exists: " +s name) invalid_request
    else failure internal_server_error message internal_error

module _ (B : Backend) (dates : Dates) (digest : String → List ℕ) where
  abbrev pub logged : Course → AuditEntry → World B → World B
  logged course entry w = record w { audit = log_audit_event course.recording entry w.audit }

  abbrev pub input_of : Course → TokenCreate → TokenInput
  input_of course body = record {
    name = body.name;
    token = generate_token course.random_base64;
    key_ids = key_ids_of body;
    expires_at = Option.map dates.to_iso (expiry_of body course.asked_at);
  }

  -- The statement of `insertServiceToken`, which the database may reject.
  unfoldable pub inserted : Course → TokenCreate → List TokenRow → Result (String × List TokenRow)
  unfolding insert_service_token generate_token
  inserted course body rows = elim course.statement_fails [
    | some message ↦ throws message
    | none ↦
        insert_service_token dates digest course.random_id course.executed_at (input_of course body)
          rows
  ]

  abbrev pub created_of : Course → TokenCreate → String → TokenCreated
  created_of course body id = record {
    id = id;
    name = body.name;
    token = generate_token course.random_base64;
    key_ids = some_if_any (key_ids_of body);
    expires_at = Option.map dates.to_iso (expiry_of body course.asked_at);
  }

  -- `POST /admin/tokens`
  unfoldable pub create_token :
      String → Course → TokenCreate → World B → Outcome TokenCreated × World B
  unfolding inserted create_caught
  create_token request_id course body w = elim (inserted course body w.tokens) [
    | throws message ↦ (create_caught body.name message, w)
    | returns (id, rows) ↦ (
      success created (created_of course body id),
      logged course (create_entry request_id body (created_of course body id).expires_at)
          (record w { tokens = rows }),
    )
  ]

  -- `GET /admin/tokens`
  unfoldable pub list_tokens :
      Course → (List TokenRow → List TokenRow) → World B → Outcome (List TokenSummary)
  unfolding list_service_tokens
  list_tokens course newest_first w = elim course.statement_fails [
    | some message ↦ failure internal_server_error message internal_error
    | none ↦ success ok (list_service_tokens newest_first w.tokens)
  ]

  -- After the statement of the revocation, by whether it changed a row.
  unfoldable pub revoked : String → Course → String → Bool → World B → Outcome String × World B
  revoked request_id course id true w =
      (success ok id, logged course (revoke_entry request_id id) w)
  revoked request_id course id false w =
      (failure not_found "Token not found or already revoked" invalid_request, w)

  -- `DELETE /admin/tokens/{id}`
  unfoldable pub revoke_token : String → Course → String → World B → Outcome String × World B
  unfolding revoke_service_token revoked
  revoke_token request_id course id w = elim course.statement_fails [
    | some message ↦ (failure internal_server_error message internal_error, w)
    | none ↦
        let (changed, rows) = revoke_service_token dates digest course.executed_at id w.tokens in
        revoked request_id course id changed (record w { tokens = rows })
  ]
