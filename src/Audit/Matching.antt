-- ===== src/Audit/Matching.antt =====
-- The filter of the audit log against a description without patterns: no text that is searched for is read as a pattern.
use Prim.Native.Nat.add
use text.Mathlib.TextLemmas.{cons-append, nil-append}
use gpg_signing_service.Common.{
  ltb, All, ℕ, zero, suc, ◌+◌, code, String, ◌≡◌, refl, ◌∙◌, ap, sym, Bool, true, false, Option,
  List, [], ◌∷◌, ◌++◌, all, keep, eqb, ◌&&◌, ◌||◌, if◌then◌else◌, truthy?, or_text, ◌+s◌, ◌==◌,
  arith, inl, inr, Bool-cases,
}
use mathlib.Core.List.{Perm}
use gpg_signing_service.Audit.{AuditRow}
use gpg_signing_service.Audit.Query.{
  Newest, NewestFirst, is_special, Texts, AuditQuery, escape, Condition, action_is, subject_like,
  from_date, to_date, where_given, conditions, action_text, drop_rows, take_rows, holds,
  get_audit_logs,
}

module _ (T : Texts) where
  open T use {fold, like, text_le}

  -- Whether the text begins with the other, or contains it, up to the case of letters.
  abbrev pub begins : String → String → Bool
  begins String.[] s = true
  begins (String.◌∷◌ d t) String.[] = false
  begins (String.◌∷◌ d t) (String.◌∷◌ c s) = eqb (fold (code d)) (fold (code c)) && begins t s

  abbrev pub has : String → String → Bool
  has t String.[] = begins t ""
  has t (String.◌∷◌ c s) = begins t (String.◌∷◌ c s) || has t s

  like-percent_end : (s : String) → like "%" s ≡ true
  like-percent_end String.[] = (T.like-percent "a" "" "").0 ∙ (T.like-end "a" "").0
  like-percent_end (String.◌∷◌ c s) = ground (arith, (T.like-percent c "" s).1, like-percent_end s)

  like-escape : (t s : String) → like (escape t +s "%") s ≡ begins t s
  unfolding escape
  like-escape String.[] s = rw nil-append (like-percent_end s)
  like-escape (String.◌∷◌ d t) String.[] = elim (Bool-cases (is_special (code d))) [
    | inl h ↦ rw (h, cons-append, cons-append) ((T.like-escaped d "a" (escape t +s "%") "" h).0)
    | inr h ↦ rw (h, cons-append) ((T.like-plain d "a" (escape t +s "%") "" h).0)
  ]
  like-escape (String.◌∷◌ d t) (String.◌∷◌ c s) = elim (Bool-cases (is_special (code d))) [
    | inl h ↦
        rw (h, cons-append, cons-append, sym (like-escape t s))
          ((T.like-escaped d c (escape t +s "%") s h).1)
    | inr h ↦
        rw (h, cons-append, sym (like-escape t s)) ((T.like-plain d c (escape t +s "%") s h).1)
  ]

  like-has : (t s : String) → like ("%" +s (escape t +s "%")) s ≡ has t s
  like-has t String.[] =
      rw (cons-append, nil-append) ((T.like-percent "a" (escape t +s "%") "").0 ∙ like-escape t "")
  like-has t (String.◌∷◌ c s) =
      rw (sym (like-has t s), cons-append, nil-append)
        ((T.like-percent c (escape t +s "%") s).1
          ∙ ap (λ b. b || like (String.◌∷◌ "%" (escape t +s "%")) s)
              (like-escape t (String.◌∷◌ c s)))

  -- A filter that is not given, or given as an empty text, admits every row.
  abbrev pub given : Option String → (String → Bool) → Bool
  given value test = if truthy? value then test (or_text value "") else true

  -- A text is the other, or comes before it, by the first character in which they differ.
  abbrev pub at_most : String → String → Bool
  at_most String.[] t = true
  at_most (String.◌∷◌ c s) String.[] = false
  at_most (String.◌∷◌ c s) (String.◌∷◌ d t) =
      ltb (code c) (code d) || (eqb (code c) (code d) && at_most s t)

  text_le-at_most : (s t : String) → text_le s t ≡ at_most s t
  text_le-at_most String.[] t = (T.le-end "a" t).0
  text_le-at_most (String.◌∷◌ c s) String.[] = (T.le-end c s).1
  text_le-at_most (String.◌∷◌ c s) (String.◌∷◌ d t) =
      T.le-first c d s t ∙ rw (text_le-at_most s t) refl

  -- Each row is at least as late as those behind it.
  abbrev pub IsDescending : List AuditRow → Type 0
  IsDescending [] = Unit
  IsDescending (row ∷ rows) =
      All (λ r. at_most r.timestamp row.timestamp ≡ true) rows × IsDescending rows

  All-at_most :
      (time : String) (rows : List AuditRow)
      → All (λ r. text_le r.timestamp time ≡ true) rows
      → All (λ r. at_most r.timestamp time ≡ true) rows
  All-at_most time [] h = tt
  All-at_most time (row ∷ rows) (first, rest) =
      (sym (text_le-at_most row.timestamp time) ∙ first, All-at_most time rows rest)

  NewestFirst-IsDescending : (rows : List AuditRow) → NewestFirst T rows → IsDescending rows
  NewestFirst-IsDescending [] h = tt
  NewestFirst-IsDescending (row ∷ rows) (first, rest) =
      (All-at_most row.timestamp rows first, NewestFirst-IsDescending rows rest)

  -- What a query asks of a row.
  abbrev pub meets : AuditQuery → AuditRow → Bool
  meets q row =
      given q.action (λ a. action_text row.entry.action == a)
      && (given q.subject (λ t. has t row.entry.subject)
          && (given q.start_date (λ d. at_most d row.timestamp)
              && given q.end_date (λ d. at_most row.timestamp d)))

  all-where_given :
      (test : Condition → Bool) (value : Option String) (condition : String → Condition)
      (rest : List Condition)
      → all test (where_given value condition ++ rest)
        ≡ (given value (λ s. test (condition s)) && all test rest)
  all-where_given test value condition rest = elim (Bool-cases (truthy? value)) [
    | inl h ↦ rw h refl
    | inr h ↦ rw h refl
  ]

  and_true : (b : Bool) → (b && true) ≡ b
  and_true true = refl
  and_true false = refl

  module _ (N : Newest T) where
    last_given :
        (row : AuditRow) (value : Option String) (condition : String → Condition)
        → all (holds T N row) (where_given value condition)
          ≡ given value (λ s. holds T N row (condition s))
    last_given row value condition = elim (Bool-cases (truthy? value)) [
      | inl h ↦ rw h (and_true (holds T N row (condition (or_text value ""))))
      | inr h ↦ rw h refl
    ]

    all-conditions :
        (q : AuditQuery) (row : AuditRow) → all (holds T N row) (conditions q) ≡ meets q row
    unfolding conditions
    all-conditions q row =
        rw
          (
            all-where_given (holds T N row) q.action action_is,
            all-where_given (holds T N row) q.subject
                (λ s. subject_like ("%" +s (escape s +s "%"))),
            all-where_given (holds T N row) q.start_date from_date,
            last_given row q.end_date to_date,
            like-has (or_text q.subject "") row.entry.subject,
            text_le-at_most (or_text q.start_date "") row.timestamp,
            text_le-at_most row.timestamp (or_text q.end_date ""),
          )
          refl

    keep-meets :
        (q : AuditQuery) (rows : List AuditRow)
        → keep (λ row. all (holds T N row) (conditions q)) rows ≡ keep (meets q) rows
    keep-meets q [] = refl
    keep-meets q (row ∷ rows) = rw (all-conditions q row, keep-meets q rows) refl

    -- The audit log answers the page that a query asks for of the rows found, which stand in the order of their times, the
    -- latest first, and are those with its action, with a subject that contains its text as it is, up to the case of
    -- letters, and with a time between its dates. Times and dates are compared as the texts they are, character by
    -- character; a filter that is missing or empty admits every row. No character of the subject is read as a wildcard.
    pub get_audit_logs-meets :
        (q : AuditQuery) (rows : List AuditRow)
        → (found : List AuditRow) × (Perm found (keep (meets q) rows)
            × (IsDescending found
                × (get_audit_logs T N q rows ≡ take_rows q.limit (drop_rows q.offset found))))
    unfolding get_audit_logs
    get_audit_logs-meets q rows = (
      N.newest_first (keep (meets q) rows),
      (
        N.perm (keep (meets q) rows),
        (
          NewestFirst-IsDescending (N.newest_first (keep (meets q) rows))
              (N.ordered (keep (meets q) rows)),
          rw (get_audit_logs, keep-meets q rows) refl,
        ),
      ),
    )

drop_nothing : (n : ℕ) → drop_rows n [] ≡ []
drop_nothing zero = refl
drop_nothing (suc n) = refl

drop-drop :
    (o n : ℕ) (rows : List AuditRow) → drop_rows n (drop_rows o rows) ≡ drop_rows (o + n) rows
drop-drop zero n rows = rw (add.zero n) refl
drop-drop (suc o) n [] = rw (add.suc o n) (drop_nothing n)
drop-drop (suc o) n (row ∷ rows) = rw (add.suc o n) (drop-drop o n rows)

take-take :
    (n m : ℕ) (rows : List AuditRow)
    → take_rows n rows ++ take_rows m (drop_rows n rows) ≡ take_rows (n + m) rows
take-take zero m rows = rw (add.zero m) refl
take-take (suc n) zero [] = rw (add.suc n zero) refl
take-take (suc n) (suc m) [] = rw (add.suc n (suc m)) refl
take-take (suc n) m (row ∷ rows) = rw (add.suc n m) (ap (List.◌∷◌ row) (take-take n m rows))

-- A page followed by the next one is the page of both: reading on by offsets neither skips a row nor repeats one, as long
-- as the log does not change.
pub get_audit_logs-pages :
    (T : Texts) (N : Newest T) (q : AuditQuery) (next : ℕ) (rows : List AuditRow)
    → get_audit_logs T N q rows
        ++ get_audit_logs T N (record q { limit = next; offset = q.offset + q.limit }) rows
      ≡ get_audit_logs T N (record q { limit = q.limit + next }) rows
unfolding get_audit_logs conditions
get_audit_logs-pages T N q next rows =
    let found = N.newest_first (keep (λ row. all (holds T N row) (conditions q)) rows) in
    rw (sym (drop-drop q.offset q.limit found)) (take-take q.limit next (drop_rows q.offset found))
