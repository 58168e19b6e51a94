-- ===== src/Requests/Searched.antt =====
-- A search of the audit log, from its query on.
use gpg_signing_service.Common.{
  ℕ, zero, suc, ◌≤◌, String, ◌≡◌, refl, ap, Bool, true, false, Option, none, some, List, [], ◌∷◌,
  leb, ◌&&◌, length, inl, inr, ◌⊎◌, Bool-cases, Option-cases, arith,
}
use gpg_signing_service.Audit.{AuditRow}
use gpg_signing_service.Audit.Query.{
  Newest, Texts, AuditQuery, audit_logs_route, get_audit_logs, take_rows,
}
use gpg_signing_service.Service.{Backend, World}
use gpg_signing_service.Worker.{Payload, Reply, auditing, Deployment, handle, handle_target, logs}
use gpg_signing_service.Requests.{
  Field, missing, mistyped, present, Parsed, accepted, refused, raised, RawAuditQuery, admits,
  coerced, max_audit_logs, audit_query_of, parse_audit_query,
}
use gpg_signing_service.Requests.Validated.{accepted-injective, refused-accepted}
use gpg_signing_service.Requests.Served.{target_of}

Parsed-cases :
    {A : Type 0} (r : Parsed A)
    → ((a : A) × (r ≡ accepted a)) ⊎ ((r ≡ refused) ⊎ ((m : String) × (r ≡ raised m)))
Parsed-cases (accepted a) = inl (a, refl)
Parsed-cases refused = inr (inl refl)
Parsed-cases (raised m) = inr (inr (m, refl))

length-take_rows : (n : ℕ) (rows : List AuditRow) → length (take_rows n rows) ≤ n
length-take_rows zero rows = omega arith
length-take_rows (suc n) [] = omega arith
length-take_rows (suc n) (row ∷ rows) = omega (arith, length-take_rows n rows)

get_audit_logs-le :
    (T : Texts) (N : Newest T) (q : AuditQuery) (rows : List AuditRow)
    → length (get_audit_logs T N q rows) ≤ q.limit
unfolding get_audit_logs
get_audit_logs-le T N q rows = length-take_rows q.limit _

coerced-le :
    (to_number : String → Option ℕ) (f : Field String) (n : ℕ)
    → coerced to_number (λ k. leb 1 k && leb k max_audit_logs) 100 f ≡ some n
    → n ≤ 1000
coerced-le to_number missing n e = ground (arith, e)
coerced-le to_number mistyped n e = absurd (cc)
coerced-le to_number (present s) n e = elim (Option-cases (to_number s)) [
  | inl absent ↦ absurd (ground (arith, absent, e))
  | inr (k, found) ↦ ground (arith, found, e)
]

audit_query_of-limit :
    (is_datetime : String → Bool) (raw : RawAuditQuery) (limit offset : Option ℕ) (q : AuditQuery)
    → audit_query_of is_datetime raw limit offset ≡ accepted q
    → limit ≡ some q.limit
unfolding audit_query_of
audit_query_of-limit is_datetime raw none offset q e = absurd (refused-accepted e)
audit_query_of-limit is_datetime raw (some limit) none q e = absurd (refused-accepted e)
audit_query_of-limit is_datetime raw (some limit) (some offset) q e =
    let dates = admits is_datetime raw.start_date && admits is_datetime raw.end_date in
    let texts = admits (λ s. true) raw.subject && dates in
    elim (Bool-cases (admits (λ s. true) raw.action && texts)) [
      | inr other ↦ absurd (refused-accepted (rw (other, audit_query_of) at e))
      | inl valid ↦
          ap (λ (x : AuditQuery). some x.limit)
            (accepted-injective (rw (valid, audit_query_of) at e))
    ]

-- How many entries an answer has.
abbrev pub entries : Payload → ℕ
entries (logs found) = length found.logs
entries _ = 0

module _ (B : Backend) (d : Deployment) (to_number : String → Option ℕ)
    (is_datetime : String → Bool) where
  -- `GET /admin/audit`, from the query on
  unfoldable pub search : (statement_fails : Bool) → RawAuditQuery → World B → Reply × World B
  unfolding parse_audit_query handle_target
  search statement_fails raw w =
      handle_target B d
        (target_of (auditing statement_fails) (parse_audit_query to_number is_datetime raw)) w

  answered-le :
      (fails : Bool) (q : AuditQuery) (w : World B)
      → q.limit ≤ 1000
      → entries (handle B d (auditing fails q) w).0.payload ≤ 1000
  unfolding handle audit_logs_route get_audit_logs
  answered-le true q w h = omega arith
  answered-le false q w h = omega (arith, h, get_audit_logs-le d.texts d.newest_rows q w.audit)

  -- Whatever the query and whatever the log, an answer has at most 1000 entries, and the search changes nothing.
  pub search-bounded :
      (fails : Bool) (raw : RawAuditQuery) (w : World B)
      → (entries (search fails raw w).0.payload ≤ 1000) × ((search fails raw w).1 ≡ w)
  unfolding search handle_target handle parse_audit_query
  search-bounded fails raw w = elim (Parsed-cases (parse_audit_query to_number is_datetime raw)) [
    | inl (q, e) ↦
        let limit =
          audit_query_of-limit is_datetime raw
            (coerced to_number (λ k. leb 1 k && leb k max_audit_logs) 100 raw.limit)
            (coerced to_number (λ n. true) 0 raw.offset) q e in
        rw (e, search, handle_target)
          (answered-le fails q w (coerced-le to_number raw.limit q.limit limit), refl)
    | inr (inl e) ↦ rw (e, search, handle_target) (omega arith, refl)
    | inr (inr (m, e)) ↦ rw (e, search, handle_target) (omega arith, refl)
  ]
