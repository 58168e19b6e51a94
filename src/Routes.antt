-- ===== src/Routes.antt =====
-- The declarations of the routes of the OpenAPI document: `createRoute` in index.ts, routes/sign.ts, routes/admin.ts and
-- routes/tokens.ts.
use gpg_signing_service.Common.{String, Option, none, some, List, [], ◌∷◌}
use gpg_signing_service.Http.{
  Status, ok, created, bad_request, forbidden, not_found, conflict, too_many_requests,
  internal_server_error, service_unavailable,
}

pub data Method : Type 0 where
  get post delete : Method

-- The keys of `content`.
pub data Media : Type 0 where
  application_json text_plain application_pgp_keys application_pem_certificate_chain : Media

-- The schemas that the declarations name; `any_string` is `z.string()`, and the last two are objects of one parameter.
pub data Schema : Type 0 where
  error_response rate_limit_error_response : Schema
  health_response public_key_response sign_response any_string : Schema
  key_response x509_key_response key_list_response key_deletion_response : Schema
  audit_logs_response : Schema
  token_created_response token_list_response token_revoke_response : Schema
  sign_request key_upload x509_key_upload token_create : Schema
  public_key_query audit_query request_headers : Schema
  key_id_params uuid_params : Schema

-- The schemes of `security`.
pub data Scheme : Type 0 where
  oidc_auth bearer_auth service_token_auth : Scheme

pub record Declared : Type 0 where
  pub status : Status
  pub content : List (Media × Schema)
  pub description : String

pub record Route : Type 0 where
  pub method : Method
  pub path : String
  pub summary : String
  pub description : String
  pub security : List Scheme
  pub body : Option (Media × Schema)
  pub query : Option Schema
  pub headers : Option Schema
  pub params : Option Schema
  pub responses : List Declared

abbrev answer : Status → List (Media × Schema) → String → Declared
answer status content description = record {
  status = status;
  content = content;
  description = description;
}

-- `GET /health`
abbrev pub health_route : Route
health_route = record {
  method = get;
  path = "/health";
  summary = "Health check";
  description = "Check the health of the service";
  security = [];
  body = none;
  query = none;
  headers = none;
  params = none;
  responses =
      answer ok ((application_json, health_response) ∷ []) "Service is healthy"
      ∷ answer service_unavailable ((application_json, health_response) ∷ []) "Service is degraded"
      ∷ [];
}

-- `GET /public-key`
abbrev pub public_key_route : Route
public_key_route = record {
  method = get;
  path = "/public-key";
  summary = "Get public key";
  description = "Get the public key for signature verification";
  security = [];
  body = none;
  query = some public_key_query;
  headers = none;
  params = none;
  responses =
      answer ok ((application_pgp_keys, public_key_response) ∷ []) "Public Key"
      ∷ answer not_found ((application_json, error_response) ∷ []) "Key not found"
      ∷ answer internal_server_error ((application_json, error_response) ∷ [])
          "Internal server error"
      ∷ [];
}

-- `POST /sign`
abbrev pub sign_route : Route
sign_route = record {
  method = post;
  path = "/";
  summary = "Sign commit data";
  description = "Sign git commit data using the stored GPG key";
  security = oidc_auth ∷ service_token_auth ∷ [];
  body = some (text_plain, sign_request);
  query = some public_key_query;
  headers = some request_headers;
  params = none;
  responses =
      answer ok ((text_plain, sign_response) ∷ []) "PGP Signature"
      ∷ answer bad_request ((application_json, error_response) ∷ []) "Bad Request"
      ∷ answer forbidden ((application_json, error_response) ∷ [])
          "Token not allowed to use this key"
      ∷ answer not_found ((application_json, error_response) ∷ []) "Key not found"
      ∷ answer too_many_requests ((application_json, rate_limit_error_response) ∷ [])
          "Rate limit exceeded"
      ∷ answer internal_server_error ((application_json, error_response) ∷ [])
          "Internal Server Error"
      ∷ answer service_unavailable ((application_json, error_response) ∷ []) "Service Unavailable"
      ∷ [];
}

-- `POST /admin/keys`
abbrev pub upload_key_route : Route
upload_key_route = record {
  method = post;
  path = "/keys";
  summary = "Upload a new signing key";
  description = "Upload a GPG private key for signing";
  security = bearer_auth ∷ [];
  body = some (application_json, key_upload);
  query = none;
  headers = none;
  params = none;
  responses =
      answer created ((application_json, key_response) ∷ []) "Key uploaded successfully"
      ∷ answer bad_request ((application_json, error_response) ∷ []) "Invalid request"
      ∷ answer internal_server_error ((application_json, error_response) ∷ [])
          "Internal server error"
      ∷ [];
}

-- `POST /admin/keys/x509`
abbrev pub upload_x509_key_route : Route
upload_x509_key_route = record {
  method = post;
  path = "/keys/x509";
  summary = "Upload a new X.509 signing key";
  description =
      "Upload a PKCS#8 private key and X.509 certificate for detached PKCS#7 commit signing (git gpg.format=x509)";
  security = bearer_auth ∷ [];
  body = some (application_json, x509_key_upload);
  query = none;
  headers = none;
  params = none;
  responses =
      answer created ((application_json, x509_key_response) ∷ []) "Key uploaded successfully"
      ∷ answer bad_request ((application_json, error_response) ∷ []) "Invalid request"
      ∷ answer internal_server_error ((application_json, error_response) ∷ [])
          "Internal server error"
      ∷ [];
}

-- `GET /admin/keys`
abbrev pub list_keys_route : Route
list_keys_route = record {
  method = get;
  path = "/keys";
  summary = "List all keys";
  description = "List metadata for all stored keys";
  security = bearer_auth ∷ [];
  body = none;
  query = none;
  headers = none;
  params = none;
  responses =
      answer ok ((application_json, key_list_response) ∷ []) "List of keys"
      ∷ answer internal_server_error ((application_json, error_response) ∷ [])
          "Internal server error"
      ∷ [];
}

-- `GET /admin/keys/{keyId}/public`
abbrev pub get_public_key_route : Route
get_public_key_route = record {
  method = get;
  path = "/keys/{keyId}/public";
  summary = "Get public key";
  description = "Get the public key for a specific key ID";
  security = bearer_auth ∷ [];
  body = none;
  query = none;
  headers = none;
  params = some key_id_params;
  responses =
      answer ok
        ((application_pgp_keys, any_string) ∷ (application_pem_certificate_chain, any_string) ∷ [])
        "Public key (PGP armored) or X.509 certificate (PEM)"
      ∷ answer not_found ((application_json, error_response) ∷ []) "Key not found"
      ∷ answer internal_server_error ((application_json, error_response) ∷ [])
          "Internal server error"
      ∷ [];
}

-- `DELETE /admin/keys/{keyId}`
abbrev pub delete_key_route : Route
delete_key_route = record {
  method = delete;
  path = "/keys/{keyId}";
  summary = "Delete a key";
  description = "Delete a stored key";
  security = bearer_auth ∷ [];
  body = none;
  query = none;
  headers = none;
  params = some key_id_params;
  responses =
      answer ok ((application_json, key_deletion_response) ∷ []) "Key deleted"
      ∷ answer internal_server_error ((application_json, error_response) ∷ [])
          "Internal server error"
      ∷ [];
}

-- `GET /admin/audit`
abbrev pub get_audit_logs_route : Route
get_audit_logs_route = record {
  method = get;
  path = "/audit";
  summary = "Get audit logs";
  description = "Retrieve audit logs with filtering";
  security = bearer_auth ∷ [];
  body = none;
  query = some audit_query;
  headers = none;
  params = none;
  responses =
      answer ok ((application_json, audit_logs_response) ∷ []) "Audit logs"
      ∷ answer bad_request ((application_json, error_response) ∷ []) "Invalid request"
      ∷ answer internal_server_error ((application_json, error_response) ∷ [])
          "Internal server error"
      ∷ [];
}

-- `POST /admin/tokens`
abbrev pub create_token_route : Route
create_token_route = record {
  method = post;
  path = "/tokens";
  summary = "Mint a service token";
  description =
      "Create a long-lived bearer token for CI systems without an OIDC issuer. The plaintext token is returned exactly once.";
  security = bearer_auth ∷ [];
  body = some (application_json, token_create);
  query = none;
  headers = none;
  params = none;
  responses =
      answer created ((application_json, token_created_response) ∷ []) "Token minted"
      ∷ answer bad_request ((application_json, error_response) ∷ []) "Invalid request"
      ∷ answer conflict ((application_json, error_response) ∷ []) "Token name already exists"
      ∷ answer internal_server_error ((application_json, error_response) ∷ [])
          "Internal server error"
      ∷ [];
}

-- `GET /admin/tokens`
abbrev pub list_tokens_route : Route
list_tokens_route = record {
  method = get;
  path = "/tokens";
  summary = "List service tokens";
  description = "List all service tokens; secret material never leaves the DB";
  security = bearer_auth ∷ [];
  body = none;
  query = none;
  headers = none;
  params = none;
  responses =
      answer ok ((application_json, token_list_response) ∷ []) "Tokens"
      ∷ answer internal_server_error ((application_json, error_response) ∷ [])
          "Internal server error"
      ∷ [];
}

-- `DELETE /admin/tokens/{id}`
abbrev pub revoke_token_route : Route
revoke_token_route = record {
  method = delete;
  path = "/tokens/{id}";
  summary = "Revoke a service token";
  description = "Revoke a token by id; revocation is immediate and permanent";
  security = bearer_auth ∷ [];
  body = none;
  query = none;
  headers = none;
  params = some uuid_params;
  responses =
      answer ok ((application_json, token_revoke_response) ∷ []) "Token revoked"
      ∷ answer not_found ((application_json, error_response) ∷ [])
          "Token not found or already revoked"
      ∷ answer internal_server_error ((application_json, error_response) ∷ [])
          "Internal server error"
      ∷ [];
}
