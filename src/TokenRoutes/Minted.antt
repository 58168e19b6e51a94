-- ===== src/TokenRoutes/Minted.antt =====
-- What a minted token is good for, and that a name is given once.
use gpg_signing_service.Common.{
  ℕ, ◌/◌, String, ◌≡◌, refl, ap, ◌∙◌, true, false, Option, none, some, List, [], ◌∷◌, arith, any,
  All, ◌==◌, ◌+s◌, starts_with_append, skip-append, if◌then◌else◌,
}
use gpg_signing_service.Common.Result.{returns}
use gpg_signing_service.Http.{created, conflict}
use gpg_signing_service.Dates.{Dates}
use gpg_signing_service.Oidc.{Platform, Settings, Net}
use gpg_signing_service.Auth.{verified_passage, caller_auth, token_passage}
use gpg_signing_service.ServiceTokens.{
  TokenRow, generate_token, clashes, new_row, insert_service_token, verify_service_token,
  verify_rows, Faults, some_if_any, url_safe,
}
use gpg_signing_service.ServiceTokens.KeyIds.{IsKeyId}
use gpg_signing_service.ServiceTokens.Lifecycle.{is_past, verify-minted}
use gpg_signing_service.Errors.{success, failure, invalid_request}
use gpg_signing_service.Service.{Backend, World}
use gpg_signing_service.TokenRoutes.{
  TokenCreate, Course, key_ids_of, expiry_of, create_caught, create_entry, logged, input_of,
  inserted, created_of, create_token,
}

abbrev pub bearer : String → Option String
bearer token = some ("Bearer " +s token)

-- A table with the name of a new row has a row that clashes with it.
clash_of_name :
    (new : TokenRow) (rows : List TokenRow)
    → any (λ row. row.name == new.name) rows ≡ true
    → any (clashes new) rows ≡ true
clash_of_name new [] h = h
clash_of_name new (row ∷ rows) h = ground (arith, clash_of_name new rows)

module _ (B : Backend) (dates : Dates) (digest : String → List ℕ) where
  -- A service token with its prefix goes to the table.
  caller_auth-service_token :
      (p : Platform) (env : Settings) (now : ℕ) (faults : Faults) (base64 : String) (net : Net)
      (rows : List TokenRow)
      → (caller_auth p env dates digest now faults (bearer (generate_token base64)) (net, rows)).0
        ≡ verified_passage
            (now / 1000)
            (verify_service_token dates digest now faults (generate_token base64) rows).0
  unfolding caller_auth generate_token
  caller_auth-service_token p env now faults base64 net rows =
      rw
        (
          starts_with_append "Bearer " (generate_token base64),
          skip-append "Bearer " (generate_token base64),
          starts_with_append "gst_" (url_safe base64),
        )
        refl

  -- A SELECT that does not reject.
  verify-answered :
      (now : ℕ) (faults : Faults) (token : String) (rows : List TokenRow)
      → faults.select_fails ≡ none
      → (verify_service_token dates digest now faults token rows).0
        ≡ returns (verify_rows dates digest now faults.stamp_fails token rows).0
  unfolding verify_service_token
  verify-answered now faults token rows e = rw (e, verify_service_token) refl

  module _ (request_id : String) (course : Course) (body : TokenCreate) (w : World B) where
    abbrev pub row : TokenRow
    row =
        new_row dates digest course.random_id course.executed_at
          (input_of B dates digest course body)

    insert-fresh :
        any (clashes row) w.tokens ≡ false
        → insert_service_token dates digest course.random_id course.executed_at
            (input_of B dates digest course body)
            w.tokens
          ≡ returns (course.random_id, row ∷ w.tokens)
    unfolding insert_service_token
    insert-fresh fresh = rw (fresh, insert_service_token) refl

    inserted_fresh :
        course.statement_fails ≡ none
        → any (clashes row) w.tokens ≡ false
        → inserted B dates digest course body w.tokens ≡ returns (course.random_id, row ∷ w.tokens)
    unfolding inserted
    inserted_fresh works fresh = rw (works, inserted) (insert-fresh fresh)

    create_token-fresh :
        course.statement_fails ≡ none
        → any (clashes row) w.tokens ≡ false
        → create_token B dates digest request_id course body w ≡ (
          success created (created_of B dates digest course body course.random_id),
          logged B dates digest course
              (create_entry request_id body
                (created_of B dates digest course body course.random_id).expires_at)
              (record w { tokens = row ∷ w.tokens }),
        )
    unfolding create_token
    create_token-fresh works fresh = rw (create_token, inserted_fresh works fresh) refl

    -- If the SELECT is answered, and neither the name nor the random values are in the table, minting answers 201 with the token, and a caller
    -- who presents it is let through until it expires, with the name and the allowlist of the answer; after that the
    -- caller is refused.
    pub create_token-admitted :
        (p : Platform) (env : Settings) (now : ℕ) (faults : Faults) (net : Net)
        → course.statement_fails ≡ none
        → faults.select_fails ≡ none
        → any (clashes row) w.tokens ≡ false
        → All IsKeyId (key_ids_of body)
        → ((create_token B dates digest request_id course body w).0
            ≡ success created (created_of B dates digest course body course.random_id))
          × ((caller_auth p env dates digest now faults
                (bearer (generate_token course.random_base64))
                (net, (create_token B dates digest request_id course body w).1.tokens)).0
              ≡ token_passage (now / 1000) (
                  if is_past now (expiry_of body course.asked_at)
                  then none
                  else some (record {
                    id = course.random_id;
                    name = body.name;
                    allowed_key_ids = some_if_any (key_ids_of body);
                  })))
    create_token-admitted p env now faults net works answered fresh valid =
        rw (create_token-fresh works fresh) (
          refl,
          caller_auth-service_token p env now faults course.random_base64 net (row ∷ w.tokens)
              ∙ ap (verified_passage (now / 1000)) (
                  verify-answered now faults (generate_token course.random_base64) (row ∷ w.tokens)
                    answered)
              ∙ ap (token_passage (now / 1000))
                  (verify-minted dates digest w.tokens (row ∷ w.tokens) course.random_id
                    course.random_id body.name (generate_token course.random_base64)
                    (key_ids_of body) (expiry_of body course.asked_at) course.executed_at now
                    faults.stamp_fails valid (insert-fresh fresh)).1,
        )

    -- A name that is in the table, be its token revoked or not, is not given again: if the INSERT does not fail for any
    -- reason but its constraints, the answer is 409, and nothing changes, the audit log included.
    pub create_token-conflict :
        course.statement_fails ≡ none
        → any (λ r. r.name == body.name) w.tokens ≡ true
        → create_token B dates digest request_id course body w
          ≡ (failure conflict ("Token name already exists: " +s body.name) invalid_request, w)
    unfolding create_token inserted insert_service_token create_caught
    create_token-conflict works taken =
        rw (works, create_token, inserted, clash_of_name row w.tokens taken, insert_service_token)
          refl
