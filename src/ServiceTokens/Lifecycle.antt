-- ===== src/ServiceTokens/Lifecycle.antt =====
-- The life of a service token: minted, presented, revoked.
use text.Mathlib.TextPositions.{eq_refl}
use mathlib.Core.Option
use gpg_signing_service.Common.{
  ℕ, String, ◌≡◌, refl, ap, ◌∙◌, Bool, true, false, Option, none, some, List, [], ◌∷◌, arith, find,
  any, truthy, truthy?, All, ◌==◌, eq_iff, ltb, if◌then◌else◌, join, Bool-cases, Option-cases, inl,
  inr,
}
use gpg_signing_service.Common.Result.{Result, returns, throws}
use gpg_signing_service.Dates.{Dates}
use gpg_signing_service.ServiceTokens.{
  TokenRow, TokenInput, hash_token, has_hash, clashes, stamp, revoke_rows, is_revocable,
  insert_service_token, verify_rows, verify_service_token, Faults, revoke_service_token, is_expired,
  new_row, some_if_any, parse_key_ids, policy_of,
}
use gpg_signing_service.ServiceTokens.KeyIds.{IsKeyId, parse_key_ids-join}

-- Whether the row for the hash is there and revoked.
abbrev pub is_revoked : String → List TokenRow → Bool
is_revoked hash rows = elim (find (has_hash hash) rows) [
  | none ↦ false
  | some row ↦ truthy? row.revoked_at
]

is_revoked-stamp :
    (hash time id : String) (rows : List TokenRow)
    → is_revoked hash (stamp time id rows) ≡ is_revoked hash rows
unfolding stamp
is_revoked-stamp hash time id [] = refl
is_revoked-stamp hash time id (row ∷ rows) = ground (arith, is_revoked-stamp hash time id rows)

pub is_revoked-revoke_rows :
    (hash time id : String) (rows : List TokenRow)
    → is_revoked hash rows ≡ true
    → is_revoked hash (revoke_rows time id rows) ≡ true
unfolding revoke_rows
is_revoked-revoke_rows hash time id [] h = h
is_revoked-revoke_rows hash time id (row ∷ rows) h =
    ground (arith, is_revoked-revoke_rows hash time id rows)

-- The hash is unique, so a new row does not take the place of a revoked one.
is_revoked-insert :
    (hash : String) (new : TokenRow) (rows : List TokenRow)
    → any (clashes new) rows ≡ false
    → is_revoked hash rows ≡ true
    → (new.token_hash == hash) ≡ false
is_revoked-insert hash new [] e h = cc
is_revoked-insert hash new (row ∷ rows) e h = ground (
  arith,
  is_revoked-insert hash new rows,
  eq_iff new.token_hash hash,
  eq_iff row.token_hash hash,
  eq_iff row.token_hash new.token_hash,
)

is_revoked-cons :
    (hash : String) (new : TokenRow) (rows : List TokenRow)
    → any (clashes new) rows ≡ false
    → is_revoked hash rows ≡ true
    → is_revoked hash (new ∷ rows) ≡ true
is_revoked-cons hash new rows e h = ground (arith, is_revoked-insert hash new rows e h)

-- A row that was not revoked is revoked by its id.
pub revoke_rows-found :
    (hash time : String) (rows : List TokenRow) (row : TokenRow)
    → truthy time ≡ true
    → find (has_hash hash) rows ≡ some row
    → row.revoked_at ≡ none
    → (any (is_revocable row.id) rows ≡ true)
      × (is_revoked hash (revoke_rows time row.id rows) ≡ true)
unfolding revoke_rows
revoke_rows-found hash time [] row t e n = cc
revoke_rows-found hash time (r ∷ rows) row t e n =
    ground (arith, revoke_rows-found hash time rows row t, eq_iff r.id row.id, eq_refl row.id)

-- What may happen to the table.
pub data Operation : Type 0 where
  mint : String → ℕ → TokenInput → Operation
  present : ℕ → Faults → String → Operation
  revoke : ℕ → String → Operation

abbrev pub rows_of : Result (String × List TokenRow) → List TokenRow → List TokenRow
rows_of (returns (id, rows')) rows = rows'
rows_of (throws e) rows = rows

-- Whether the time of expiry, if there is one, is past.
abbrev pub is_past : ℕ → Option ℕ → Bool
is_past now none = false
is_past now (some t) = ltb t now

module _ (dates : Dates) (digest : String → List ℕ) where
  pub run : List Operation → List TokenRow → List TokenRow
  run [] rows = rows
  run (mint id now input ∷ ops) rows =
      run ops (rows_of (insert_service_token dates digest id now input rows) rows)
  run (present now faults token ∷ ops) rows =
      run ops (verify_service_token dates digest now faults token rows).1
  run (revoke now id ∷ ops) rows = run ops (revoke_service_token dates digest now id rows).1

  pub verify_rows-is_revoked :
      (hash : String) (now : ℕ) (fails : Bool) (token : String) (rows : List TokenRow)
      → is_revoked hash (verify_rows dates digest now fails token rows).1 ≡ is_revoked hash rows
  unfolding verify_rows
  verify_rows-is_revoked hash now fails token rows =
      elim (Option-cases (find (has_hash (hash_token digest token)) rows)) [
        | inl absent ↦ rw (absent, verify_rows)
        | inr (row, found) ↦
            rw (found, verify_rows)
              (ground (arith, is_revoked-stamp hash (dates.to_iso now) row.id rows))
      ]

  pub verify-is_revoked :
      (hash : String) (now : ℕ) (faults : Faults) (token : String) (rows : List TokenRow)
      → is_revoked hash (verify_service_token dates digest now faults token rows).1
        ≡ is_revoked hash rows
  unfolding verify_service_token
  verify-is_revoked hash now faults token rows = elim (Option-cases faults.select_fails) [
    | inl e ↦
        rw (e, verify_service_token) (verify_rows-is_revoked hash now faults.stamp_fails token rows)
    | inr (message, e) ↦ rw (e, verify_service_token) refl
  ]

  pub insert-is_revoked :
      (hash : String) (id : String) (now : ℕ) (input : TokenInput) (rows : List TokenRow)
      → is_revoked hash rows ≡ true
      → is_revoked hash (rows_of (insert_service_token dates digest id now input rows) rows) ≡ true
  unfolding insert_service_token
  insert-is_revoked hash id now input rows h =
      elim (Bool-cases (any (clashes (new_row dates digest id now input)) rows)) [
        | inl clash ↦ rw (clash, insert_service_token) h
        | inr fresh ↦
            rw (fresh, insert_service_token)
              (is_revoked-cons hash (new_row dates digest id now input) rows fresh h)
      ]

  run-is_revoked :
      (hash : String) (ops : List Operation) (rows : List TokenRow)
      → is_revoked hash rows ≡ true
      → is_revoked hash (run ops rows) ≡ true
  unfolding run
  run-is_revoked hash [] rows h = h
  run-is_revoked hash (mint id now input ∷ ops) rows h =
      run-is_revoked hash ops _ (insert-is_revoked hash id now input rows h)
  run-is_revoked hash (present now faults token ∷ ops) rows h =
      run-is_revoked hash ops _ (verify-is_revoked hash now faults token rows ∙ h)
  run-is_revoked hash (revoke now id ∷ ops) rows h =
      run-is_revoked hash ops _
        (unfold revoke_service_token in is_revoked-revoke_rows hash (dates.to_iso now) id rows h)

  pub verify_of_is_revoked :
      (now : ℕ) (fails : Bool) (token : String) (rows : List TokenRow)
      → is_revoked (hash_token digest token) rows ≡ true
      → (verify_rows dates digest now fails token rows).0 ≡ none
  unfolding verify_rows
  verify_of_is_revoked now fails token rows h = ground arith

  -- Revocation is immediate and permanent: revoking a token that is stored and not revoked answers
  -- true, and after any further minting, presenting and revoking the token is not accepted.
  pub verify-revoked :
      (rows : List TokenRow) (row : TokenRow) (token : String) (now : ℕ) (ops : List Operation)
      (later : ℕ) (fails : Bool)
      → find (has_hash (hash_token digest token)) rows ≡ some row
      → row.revoked_at ≡ none
      → ((revoke_service_token dates digest now row.id rows).0 ≡ true)
        × ((verify_rows dates digest later fails token
              (run ops (revoke_service_token dates digest now row.id rows).1)).0
            ≡ none)
  verify-revoked rows row token now ops later fails e n =
      let (answer, revoked) =
        revoke_rows-found (hash_token digest token) (dates.to_iso now) rows row
          (dates.truthy-to_iso now) e n in
      (
        unfold revoke_service_token in answer,
        verify_of_is_revoked later fails token
            (run ops (revoke_service_token dates digest now row.id rows).1)
            (run-is_revoked (hash_token digest token) ops
              (revoke_service_token dates digest now row.id rows).1
              (unfold revoke_service_token in revoked)),
      )

  is_expired-to_iso :
      (now : ℕ) (expiry : Option ℕ)
      → is_expired dates digest now (Option.map dates.to_iso expiry) ≡ is_past now expiry
  unfolding is_expired
  is_expired-to_iso now none = refl
  is_expired-to_iso now (some t) = rw (dates.truthy-to_iso t, dates.parse_date-to_iso t)

  inserted :
      (id row_id : String) (minted : ℕ) (input : TokenInput) (rows rows' : List TokenRow)
      → insert_service_token dates digest id minted input rows ≡ returns (row_id, rows')
      → (row_id ≡ id) × (rows' ≡ new_row dates digest id minted input ∷ rows)
  unfolding insert_service_token
  inserted id row_id minted input rows rows' e = ground arith

  verify-new_row :
      (now minted : ℕ) (fails : Bool) (id : String) (input : TokenInput) (rows : List TokenRow)
      → (verify_rows dates digest now fails input.token
          (new_row dates digest id minted input ∷ rows)).0
        ≡ (if is_expired dates digest now input.expires_at
            then none
            else some (policy_of dates digest (new_row dates digest id minted input)))
  unfolding verify_rows
  verify-new_row now minted fails id input rows =
      ground (arith, eq_refl (hash_token digest input.token))

  -- A token that has just been minted is accepted until it expires, with the name and the allowlist
  -- that it was minted with; minting answers the id of the row.
  pub verify-minted :
      (rows rows' : List TokenRow) (id row_id name token : String) (key_ids : List String)
      (expiry : Option ℕ) (minted now : ℕ) (fails : Bool)
      → All IsKeyId key_ids
      → insert_service_token dates digest id minted
          (record {
            name = name;
            token = token;
            key_ids = key_ids;
            expires_at = Option.map dates.to_iso expiry;
          })
          rows
        ≡ returns (row_id, rows')
      → (row_id ≡ id)
        × ((verify_rows dates digest now fails token rows').0 ≡ (
            if is_past now expiry
            then none
            else some (record { id = id; name = name; allowed_key_ids = some_if_any key_ids })))
  verify-minted rows rows' id row_id name token key_ids expiry minted now fails h e =
      let input : TokenInput = record {
        name = name;
        token = token;
        key_ids = key_ids;
        expires_at = Option.map dates.to_iso expiry;
      } in
      let (same, rows_eq) = inserted id row_id minted input rows rows' e in
      (
        same,
        ap (λ (t : List TokenRow). (verify_rows dates digest now fails token t).0) rows_eq
            ∙ verify-new_row now minted fails id input rows
            ∙ ap
                (λ (b : Bool).
                  if b
                  then none
                  else some (record {
                    id = id;
                    name = name;
                    allowed_key_ids = parse_key_ids (join "," key_ids);
                  }))
                (is_expired-to_iso now expiry)
            ∙ ap
                (λ (ids : Option (List String)).
                  if is_past now expiry
                  then none
                  else some (record { id = id; name = name; allowed_key_ids = ids }))
                (parse_key_ids-join key_ids h),
      )
