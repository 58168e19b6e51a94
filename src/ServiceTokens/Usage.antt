-- ===== src/ServiceTokens/Usage.antt =====
-- Presenting a token changes nothing of the rows but the time of the last use.
use gpg_signing_service.Common.{
  ℕ, String, ◌≡◌, refl, ap, Bool, none, List, [], ◌∷◌, map, inl, inr, Bool-cases, Option-cases,
  find, ◌==◌, arith,
}
use gpg_signing_service.Dates.{Dates}
use gpg_signing_service.ServiceTokens.{
  TokenRow, hash_token, has_hash, verify_rows, verify_service_token, Faults, stamp,
}

-- A row without the time at which its token was last used.
abbrev pub unused : TokenRow → TokenRow
unused row = record row { last_used_at = none }

unused-stamp :
    (time id : String) (rows : List TokenRow) → map unused (stamp time id rows) ≡ map unused rows
unfolding stamp
unused-stamp time id [] = refl
unused-stamp time id (row ∷ rows) = elim (Bool-cases (row.id == id)) [
  | inl same ↦ rw (same, stamp) (ap (λ l. unused row ∷ l) (unused-stamp time id rows))
  | inr other ↦ rw (other, stamp) (ap (λ l. unused row ∷ l) (unused-stamp time id rows))
]

module _ (dates : Dates) (digest : String → List ℕ) where
  unused-verify_rows :
      (now : ℕ) (fails : Bool) (token : String) (rows : List TokenRow)
      → map unused (verify_rows dates digest now fails token rows).1 ≡ map unused rows
  unfolding verify_rows
  unused-verify_rows now fails token rows =
      elim (Option-cases (find (has_hash (hash_token digest token)) rows)) [
        | inl absent ↦ rw (absent, verify_rows) refl
        | inr (row, found) ↦
            rw (found, verify_rows) (ground (arith, unused-stamp (dates.to_iso now) row.id rows))
      ]

  pub unused-verify :
      (now : ℕ) (faults : Faults) (token : String) (rows : List TokenRow)
      → map unused (verify_service_token dates digest now faults token rows).1 ≡ map unused rows
  unfolding verify_service_token
  unused-verify now faults token rows = elim (Option-cases faults.select_fails) [
    | inl e ↦ rw (e, verify_service_token) (unused-verify_rows now faults.stamp_fails token rows)
    | inr (message, e) ↦ rw (e, verify_service_token) refl
  ]
