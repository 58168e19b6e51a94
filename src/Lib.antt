-- ===== src/Lib.antt =====
-- A model of the GPG signing service: a worker that signs git commits with keys it keeps, for callers
-- from continuous integration. A caller shows an OIDC token or a service token; the worker checks it,
-- takes a token from the caller's bucket, reads the key from its storage, signs the data, and writes to
-- an audit log.
--
-- The files, and the code they are about:
-- - Common: tests, lists, texts, integers and results that the other files share; Dict: maps.
-- - Storage: the storage of a Durable Object as an interface with its documented laws; Storage/Assoc
--   implements it. Dates: the dates of the language; Dates/Unary implements them.
-- - Http: src/types/http.ts.
-- - RateLimiter: src/durable-objects/rate-limiter.ts and src/types/rate-limit.ts. The state is the
--   store of buckets; `fetch` answers a request and gives the new store. RateLimiter/Refinement relates
--   it to one bucket for each identity, RateLimiter/Window bounds what a history of requests is granted,
--   RateLimiter/Answers is about single answers.
-- - KeyStorage: src/durable-objects/key-storage.ts, with the same shape. KeyStorage/Contract is its
--   contract as a map from key ids, KeyStorage/Listing is about the listing.
-- - KeyCache: src/utils/key-cache.ts, with KeyCache/View for what the cache shows at a time.
-- - Keys: src/types/branded.ts and the shapes of src/schemas/keys.ts; Keys/Format is about key ids. Keys/Schema
--   has the checks of src/schemas/keys.ts; its files relate them to `createArmoredPrivateKey` and to the JSON of a
--   stored key.
-- - UrlValidation: src/utils/url-validation.ts, with a file for IPv4, for IPv6 and for IPv6 addresses
--   that embed IPv4 ones.
-- - ServiceTokens: src/utils/service-tokens.ts over the rows of the table `service_tokens`;
--   ServiceTokens/KeyIds is about the column of key ids, ServiceTokens/Usage about the time of the last use,
--   ServiceTokens/Lifecycle about a token from minting to revocation.
-- - Oidc: `validateOIDCToken` and `getJWKS` of src/middleware/oidc.ts. The state is the cache of keys
--   and the list of the URLs handed to `fetch`. Oidc/Checks and Oidc/Fetching hold the proofs.
-- - Auth: `oidcAuth`, `adminAuth` and `timingSafeEqual` of src/middleware/oidc.ts, and
--   src/middleware/caller-auth.ts.
-- - Signing: src/utils/signing.ts, with OpenPGP.js as a parameter; Signing/Cached compares
--   signing with and without the cache, Signing/Others is about the other entries of the cache,
--   Signing/Validated about what `parseAndValidateKey` returns, Signing/Overtaken about a signature
--   and an upload at the same time. X509: src/utils/x509.ts, with micro509 as a parameter.
-- - Errors: the codes of src/schemas/errors.ts; Errors/Response is src/utils/errors.ts, with Errors/Stackless for what it
--   logs. Logging: src/utils/logger.ts, with Logging/Production. Fetch: src/utils/fetch.ts on a clock with timers, with
--   Fetch/Limited for its end. Audit: `logAuditEvent` of src/utils/audit.ts over the rows of the
--   table `audit_logs`; Audit/Query is `getAuditLogs`, Audit/Matching relates it to a filter without patterns;
--   Audit/Rows is `transformAuditLogRow` of src/utils/database.ts.
-- - Service: the state of the whole service (the buckets, the keys, the cache, the audit log, the service tokens and
--   the network), and src/utils/durable-objects.ts; Service/Sample is a concrete service for the tests.
-- - Sign: the handler of src/routes/sign.ts, with its requests and answers in SignRequest. Sign/Limited and Sign/Paid
--   are about the rate limit, Sign/Audited about the audit log, Sign/Steady about two runs with different caches;
--   Sign/Ends says how a run can end, Sign/Spent what it asks of the rate limiter.
-- - KeyRoutes: the uploads of src/routes/admin.ts; KeyRoutes/Existing: its list, public keys and deletions.
--   KeyRoutes/Cases says how a request can end; KeyRoutes/Upload, KeyRoutes/Served and KeyRoutes/Deletion hold the
--   proofs.
-- - TokenRoutes: src/routes/tokens.ts, with TokenRoutes/Minted for what a minted token is good for.
-- - App: src/index.ts; App/Guarded is about who reaches the handlers, App/PublicKeys compares the two ways to a
--   public key.
-- - Requests: the schemas of the requests to the administration, from src/schemas/keys.ts, src/schemas/tokens.ts and
--   src/schemas/audit.ts; Requests/Validated says what the handlers may take for granted, Requests/Served goes from the
--   body of a request to its answer, Requests/Searched from a query to the entries of the audit log.
-- - Routes: the declarations of the routes for the OpenAPI document. Worker: src/index.ts as a whole, with Worker/Declared
--   for the statuses of the answers against these declarations, Worker/Effects for what one request changes, Worker/Histories and
--   Worker/Revoked for what any requests change, one after another, and Worker/Quota for how many signatures one identity
--   gets.
-- - Database: `D1QueryBuilder` of src/utils/database.ts, with Database/Placeholders for its placeholders.
-- - History: the requests as steps from one state of the service to the next; History/Fresh and History/Transparent
--   are about the cache in all states that can be reached.
-- - Security: `productionCors` and `adminRateLimit` of src/middleware/security.ts; Security/Origins and
--   Security/FailClosed hold the proofs. Security/Headers: `securityHeaders`, and
--   src/middleware/request-id.ts; Security/Answers: the headers of every answer.
-- The files Tests apply the theorems to concrete inputs.
--
-- How the code is modelled: the asynchronous functions are functions on explicit state; the clock is an
-- argument wherever it is read; code that throws gives a `Result`; what fails outside of the code (the
-- network, a call of a Durable Object, a statement of the database, a write to the cache, the audit log) is an argument
-- too. Recursion is on lists and texts, so that no fuel is needed, but for the wait in Fetch, which has one unit for each
-- millisecond: Fetch/Limited proves that one unit more than the time limit is enough. Times and counts are natural numbers; a bucket counts 60000ths of a token, so
-- that refilling is exact where the code uses floating point numbers.
--
-- Parameters, since their code is not in the repository: the storage, the URL parser, the dates, SHA-256
-- and random bytes, the decoding and the verification of OIDC tokens, the comparison of bytes in
-- constant time, OpenPGP.js, micro509, the network, the check of dates and the messages of zod, and what the
-- database does with LIKE, with the comparison of texts and with an order. Those on which the proofs rest have the laws
-- that their documentation gives as fields.
--
-- Not modelled: the router and the pages of the documentation, the table of media types, of which four are used,
-- and the clients; where a request goes that the platform redirects. A storage that throws while it serves is not
-- modelled either, nor are statements of the database, and calls of the rate limiter of the administration, that reject
-- after they have been served (calls of the key storage, and of the rate limiter of `/sign`, are), nor, but for
-- Signing/Overtaken, requests that run at the same time, in one worker or in several.
pub mod Common
pub mod Dict
pub mod Http
pub mod Storage
pub mod RateLimiter
pub mod Routes
pub mod Keys
pub mod KeyStorage
pub mod KeyCache
pub mod UrlValidation
pub mod Dates
pub mod ServiceTokens
pub mod Oidc
pub mod Auth
pub mod Signing
pub mod Sign
pub mod Security
pub mod Service
pub mod KeyRoutes
pub mod TokenRoutes
pub mod App
pub mod History
pub mod Database
pub mod SignRequest
pub mod Errors
pub mod Requests
pub mod Logging
pub mod Fetch
pub mod Audit
pub mod Worker
pub mod X509
