-- ===== src/Worker/Effects.antt =====
-- What a request may do to the audit log and to the other tables.
pub mod Sign
pub mod Admin
pub mod Callers
use gpg_signing_service.Common.{
  ℕ, suc, ◌+◌, ◌≤◌, ◌≡◌, refl, ◌∙◌, ap, List, [], ◌∷◌, ◌++◌, ◌⊎◌, inl, inr, Bool-cases, All, length,
  length-append, arith,
}
use gpg_signing_service.Audit.{AuditEntry, AuditRow, Recording, row_of, log_audit_event}

abbrev pub Anything : AuditRow → Type 0
Anything row = Unit

module _ (P : AuditRow → Type 0) where
  -- At most one row has been written, in front of the others, and it satisfies the predicate.
  abbrev pub Grows : List AuditRow → List AuditRow → Type 0
  Grows rows rows' = (rows' ≡ rows) ⊎ ((row : AuditRow) × ((rows' ≡ row ∷ rows) × P row))

  -- Some rows have been written, no more than so many.
  abbrev pub Extends : ℕ → List AuditRow → List AuditRow → Type 0
  Extends n rows rows' =
      (added : List AuditRow) × ((rows' ≡ added ++ rows) × (All P added × (length added ≤ n)))

  pub log-Grows :
      (rec : Recording) (entry : AuditEntry) (rows : List AuditRow)
      → P (row_of rec entry)
      → Grows rows (log_audit_event rec entry rows)
  log-Grows rec entry rows h = elim (Bool-cases rec.fails) [
    | inl fails ↦ inl (rw fails refl)
    | inr works ↦ inr (row_of rec entry, (rw works refl, h))
  ]

  append_assoc : (xs ys zs : List AuditRow) → xs ++ (ys ++ zs) ≡ (xs ++ ys) ++ zs
  append_assoc [] ys zs = refl
  append_assoc (x ∷ xs) ys zs = ap (λ l. x ∷ l) (append_assoc xs ys zs)

  All-append : (xs ys : List AuditRow) → All P xs → All P ys → All P (xs ++ ys)
  All-append [] ys hx hy = hy
  All-append (x ∷ xs) ys (h, hx) hy = (h, All-append xs ys hx hy)

  -- One request, then the others.
  pub Extends-suc :
      (n : ℕ) (rows rows' rows'' : List AuditRow)
      → Grows rows rows'
      → Extends n rows' rows''
      → Extends (suc n) rows rows''
  Extends-suc n rows rows' rows'' (inl same) (added, (e, (h, le))) =
      (added, (e ∙ ap (λ l. added ++ l) same, (h, omega (arith, le))))
  Extends-suc n rows rows' rows'' (inr (row, (one, p))) (added, (e, (h, le))) = (
    added ++ (row ∷ []),
    (
      e ∙ ap (λ l. added ++ l) one ∙ append_assoc added (row ∷ []) rows,
      (All-append added (row ∷ []) h (p, tt), omega (arith, le, length-append added (row ∷ []))),
    ),
  )
