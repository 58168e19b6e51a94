-- ===== src/Errors.antt =====
-- schemas/errors.ts: the codes of errors, and what a handler of the administration answers.
pub mod Response
pub mod Stackless
mod Tests
use gpg_signing_service.Common.{String}
use gpg_signing_service.Http.{Status}

pub data ErrorCode : Type 0 where
  auth_missing auth_invalid : ErrorCode
  key_not_found key_processing_error key_list_error key_upload_error key_delete_error : ErrorCode
  sign_error rate_limit_error rate_limited : ErrorCode
  invalid_request audit_error not_found_error internal_error : ErrorCode

abbrev pub error_code_text : ErrorCode → String
error_code_text auth_missing = "AUTH_MISSING"
error_code_text auth_invalid = "AUTH_INVALID"
error_code_text key_not_found = "KEY_NOT_FOUND"
error_code_text key_processing_error = "KEY_PROCESSING_ERROR"
error_code_text key_list_error = "KEY_LIST_ERROR"
error_code_text key_upload_error = "KEY_UPLOAD_ERROR"
error_code_text key_delete_error = "KEY_DELETE_ERROR"
error_code_text sign_error = "SIGN_ERROR"
error_code_text rate_limit_error = "RATE_LIMIT_ERROR"
error_code_text rate_limited = "RATE_LIMITED"
error_code_text invalid_request = "INVALID_REQUEST"
error_code_text audit_error = "AUDIT_ERROR"
error_code_text not_found_error = "NOT_FOUND"
error_code_text internal_error = "INTERNAL_ERROR"

-- An answer with a body, or an error with its message and its code.
pub data Outcome (A : Type 0) : Type 0 where
  success : Status → A → Outcome A
  failure : Status → String → ErrorCode → Outcome A
