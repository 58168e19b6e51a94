-- ===== src/SignRequest.antt =====
-- routes/sign.ts: what the handler of `POST /sign` reads, and what it answers and records.
use gpg_signing_service.Common.{
  ℕ, String, Bool, true, false, Option, none, some, List, ◌||◌, if◌then◌else◌, or_text, truthy?,
  contains, includes, utf16_length, ◌==◌,
}
use gpg_signing_service.Common.Int.{ℤ}
use gpg_signing_service.Http.{Status}
use gpg_signing_service.Auth.{Variables}
use gpg_signing_service.Errors.{ErrorCode, key_not_found, sign_error}
use gpg_signing_service.Audit.{AuditEntry, AuditAction, Recording, signed, failed}

pub data Body : Type 0 where
  signature : String → Body
  -- the message, the code and `retryAfter`
  problem : String → ErrorCode → Option ℤ → Body

pub record Response : Type 0 where
  pub status : Status
  pub body : Body
  -- the headers of the remaining requests and of the reset
  pub rate_limit : Option (ℤ × ℤ)

abbrev pub refusal : Status → String → ErrorCode → Response
refusal status message code = record {
  status = status;
  body = problem message code none;
  rate_limit = none;
}

-- A request that the authentication has let through.
pub record Request : Type 0 where
  pub request_id : String
  pub variables : Variables
  pub key_id : Option String
  -- the body, as text
  pub commit_data : String

pub record Settings : Type 0 where
  pub key_id : String
  pub key_passphrase : String

-- The two calls of `Promise.all`: both answer, or one rejects with a message, and then the rate limiter
-- has served its call or not.
pub data Calls : Type 0 where
  answered : Calls
  rejected : String → Bool → Calls

-- What the surroundings do during the request: the times that are read, and what fails.
pub record Course : Type 0 where
  pub calls : Calls
  -- by the rate limiter for the bucket and for its header, by the handler, and by the cache
  pub limited_at : ℕ
  pub refused_at : ℕ
  pub answered_at : ℕ
  pub cache_read_at : ℕ
  pub cached_at : ℕ
  pub recording : Recording

-- `keyIdQuery || c.env.KEY_ID`
abbrev pub key_id_param : Settings → Request → String
key_id_param env r = or_text r.key_id env.key_id

abbrev pub success_entry : Settings → Request → AuditEntry
success_entry env r = record {
  request_id = r.request_id;
  action = AuditAction.sign;
  issuer = r.variables.oidc_claims.iss;
  subject = r.variables.oidc_claims.sub;
  key_id = key_id_param env r;
  success = true;
  error_code = none;
  metadata = some (
      signed
        (if truthy? r.variables.oidc_claims.repository
          then r.variables.oidc_claims.repository
          else r.variables.oidc_claims.project_path)
        (utf16_length r.commit_data));
}

abbrev pub is_not_found : String → Bool
is_not_found message = message == "Key not found" || contains message "not found"

abbrev pub failure_entry : Settings → Request → String → AuditEntry
failure_entry env r message = record {
  request_id = r.request_id;
  action = AuditAction.sign;
  issuer = r.variables.oidc_claims.iss;
  subject = r.variables.oidc_claims.sub;
  key_id = key_id_param env r;
  success = false;
  error_code = some (if is_not_found message then key_not_found else sign_error);
  metadata = some (failed message);
}

abbrev pub is_listed : Option (List String) → String → Bool
is_listed none key_id = true
is_listed (some ids) key_id = includes ids key_id
