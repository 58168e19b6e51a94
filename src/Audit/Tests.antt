-- ===== src/Audit/Tests.antt =====
-- A search of the audit log, with LIKE by recursion on the pattern.
use mathlib.Core.List.{Perm}
use mathlib.Core.List.Perm
use gpg_signing_service.Common.{
  ltb, All, inl, inr, Bool-cases, Char, code, String, ◌≡◌, refl, Bool, true, false, none, some,
  List, [], ◌∷◌, eqb, ◌&&◌, ◌||◌, not, if◌then◌else◌, arith, keep, truthy,
}
use gpg_signing_service.Common.Result.{returns}
use gpg_signing_service.Errors.{sign_error}
use gpg_signing_service.Audit.{AuditRow, AuditEntry, sign, failed}
use gpg_signing_service.Audit.Rows.{
  transform_audit_log_row, bound, entry_of, transform_audit_log_row-bound,
}
use gpg_signing_service.Audit.Query.{
  Newest, NewestFirst, is_special, Texts, AuditQuery, get_audit_logs, take_rows, drop_rows,
}
use gpg_signing_service.Audit.Matching.{IsDescending, meets, get_audit_logs-meets}

any_suffix : (String → Bool) → String → Bool
any_suffix test String.[] = test ""
any_suffix test (String.◌∷◌ c s) = test (String.◌∷◌ c s) || any_suffix test s

-- one character that is the same, then the rest
one : Char → (String → Bool) → String → Bool
one d rest String.[] = false
one d rest (String.◌∷◌ c s) = eqb (code d) (code c) && rest s

abbrev ends : String → Bool
ends s = not (truthy s)

like : String → String → Bool
unfolding any_suffix one
like String.[] s = ends s
like (String.◌∷◌ d String.[]) s =
    if eqb (code d) b'%' then any_suffix ends s else if eqb (code d) 92 then false else one d ends s
like (String.◌∷◌ d (String.◌∷◌ e p)) s =
    let rest = like (String.◌∷◌ e p) in
    let behind = like p in
    if eqb (code d) b'%'
    then any_suffix rest s
    else if eqb (code d) 92
    then one e behind s
    else one d rest s

like-percent_lem :
    (c : Char) (p s : String)
    → (like (String.◌∷◌ "%" p) "" ≡ like p "")
      × (like (String.◌∷◌ "%" p) (String.◌∷◌ c s)
          ≡ (like p (String.◌∷◌ c s) || like (String.◌∷◌ "%" p) s))
unfolding like any_suffix
like-percent_lem c String.[] s = (refl, refl)
like-percent_lem c (String.◌∷◌ d p) s = (refl, refl)

like-plain_lem :
    (d c : Char) (p s : String)
    → is_special (code d) ≡ false
    → (like (String.◌∷◌ d p) "" ≡ false)
      × (like (String.◌∷◌ d p) (String.◌∷◌ c s) ≡ (eqb (code d) (code c) && like p s))
unfolding like one
like-plain_lem d c String.[] s h =
    let percent : eqb (code d) b'%' ≡ false = ground arith in
    let backslash : eqb (code d) 92 ≡ false = ground arith in
    (rw (percent, backslash) refl, rw (percent, backslash) refl)
like-plain_lem d c (String.◌∷◌ e p) s h =
    let percent : eqb (code d) b'%' ≡ false = ground arith in
    let backslash : eqb (code d) 92 ≡ false = ground arith in
    (rw (percent, backslash) refl, rw (percent, backslash) refl)

not_after : String → String → Bool
not_after String.[] t = true
not_after (String.◌∷◌ c s) String.[] = false
not_after (String.◌∷◌ c s) (String.◌∷◌ d t) =
    ltb (code c) (code d) || (eqb (code c) (code d) && not_after s t)

pub texts : Texts
unfolding like one not_after
texts = record {
  fold = λ c. c;
  like = like;
  text_le = not_after;
  like-end = λ c s. (refl, refl);
  le-end = λ c s. (refl, refl);
  le-first = λ c d s t. refl;
  like-percent = like-percent_lem;
  like-escaped = λ d c p s h. (refl, refl);
  like-plain = like-plain_lem;
}

not_after_trans :
    (a b c : String) → not_after a b ≡ true → not_after b c ≡ true → not_after a c ≡ true
unfolding not_after
not_after_trans String.[] b c h k = refl
not_after_trans (String.◌∷◌ x a) String.[] c h k = absurd (ground arith)
not_after_trans (String.◌∷◌ x a) (String.◌∷◌ y b) String.[] h k = absurd (ground arith)
not_after_trans (String.◌∷◌ x a) (String.◌∷◌ y b) (String.◌∷◌ z c) h k =
    ground (arith, not_after_trans a b c)

not_after_total : (a b : String) → not_after a b ≡ false → not_after b a ≡ true
unfolding not_after
not_after_total String.[] b h = absurd (ground arith)
not_after_total (String.◌∷◌ x a) String.[] h = refl
not_after_total (String.◌∷◌ x a) (String.◌∷◌ y b) h = ground (arith, not_after_total a b)

-- a row before the first one that is not later
insert : AuditRow → List AuditRow → List AuditRow
insert row [] = row ∷ []
insert row (r ∷ rows) =
    if not_after r.timestamp row.timestamp then row ∷ r ∷ rows else r ∷ insert row rows

sort : List AuditRow → List AuditRow
unfolding insert
sort [] = []
sort (row ∷ rows) = insert row (sort rows)

insert-perm : (row : AuditRow) (rows : List AuditRow) → Perm (insert row rows) (row ∷ rows)
unfolding insert
insert-perm row [] = Perm.rfl
insert-perm row (r ∷ rows) = elim (Bool-cases (not_after r.timestamp row.timestamp)) [
  | inl h ↦ rw (h, insert) Perm.rfl
  | inr h ↦ rw (h, insert) (Perm.trans (Perm.cons r (insert-perm row rows)) (Perm.swap row r rows))
]

sort-perm : (rows : List AuditRow) → Perm (sort rows) rows
unfolding sort
sort-perm [] = Perm.rfl
sort-perm (row ∷ rows) = Perm.trans (insert-perm row (sort rows)) (Perm.cons row (sort-perm rows))

abbrev Below : String → List AuditRow → Type 0
Below time = All (λ r. not_after r.timestamp time ≡ true)

Below-insert :
    (time : String) (row : AuditRow) (rows : List AuditRow)
    → not_after row.timestamp time ≡ true
    → Below time rows
    → Below time (insert row rows)
unfolding insert
Below-insert time row [] h b = (h, tt)
Below-insert time row (r ∷ rows) h (first, rest) =
    elim (Bool-cases (not_after r.timestamp row.timestamp)) [
      | inl e ↦ rw (e, insert) (h, (first, rest))
      | inr e ↦ rw (e, insert) (first, Below-insert time row rows h rest)
    ]

Below-later :
    (time later : String) (rows : List AuditRow)
    → not_after time later ≡ true
    → Below time rows
    → Below later rows
Below-later time later [] h b = tt
Below-later time later (r ∷ rows) h (first, rest) =
    (not_after_trans r.timestamp time later first h, Below-later time later rows h rest)

insert-NewestFirst :
    (row : AuditRow) (rows : List AuditRow)
    → NewestFirst texts rows
    → NewestFirst texts (insert row rows)
unfolding insert texts
insert-NewestFirst row [] h = (tt, tt)
insert-NewestFirst row (r ∷ rows) (first, rest) =
    elim (Bool-cases (not_after r.timestamp row.timestamp)) [
      | inl e ↦
          rw (e, insert) ((e, Below-later r.timestamp row.timestamp rows e first), (first, rest))
      | inr e ↦
          rw (e, insert)
            (
              Below-insert r.timestamp row rows (not_after_total r.timestamp row.timestamp e) first,
              insert-NewestFirst row rows rest,
            )
    ]

sort-NewestFirst : (rows : List AuditRow) → NewestFirst texts (sort rows)
unfolding sort
sort-NewestFirst [] = tt
sort-NewestFirst (row ∷ rows) = insert-NewestFirst row (sort rows) (sort-NewestFirst rows)

pub newest : Newest texts
newest = record { newest_first = sort; perm = sort-perm; ordered = sort-NewestFirst }

abbrev row_by : String → String → AuditRow
row_by time subject = record {
  id = "1";
  timestamp = time;
  entry = record {
    request_id = "r1";
    action = sign;
    issuer = "i";
    subject = subject;
    key_id = "k";
    success = true;
    error_code = none;
    metadata = none;
  };
}

abbrev rows : List AuditRow
rows = row_by "2024" "a%b" ∷ row_by "2025" "ab" ∷ row_by "2026" "%" ∷ row_by "2023" "%" ∷ []

abbrev query : AuditQuery
query = record {
  limit = 1;
  offset = 0;
  action = some "sign";
  subject = some "%";
  start_date = some "2024";
  end_date = some "";
}

get_audit_logs-meets_example :
    (found : List AuditRow) × (Perm found (keep (meets texts query) rows)
      × (IsDescending texts found
          × (get_audit_logs texts newest query rows ≡ take_rows 1 (drop_rows 0 found))))
get_audit_logs-meets_example = get_audit_logs-meets texts newest query rows

abbrev entry : AuditEntry
entry = record {
  request_id = "r1";
  action = sign;
  issuer = "i";
  subject = "s";
  key_id = "k";
  success = false;
  error_code = some sign_error;
  metadata = some (failed "no key");
}

transform_audit_log_row-bound_example :
    transform_audit_log_row
      (λ row. "invalid")
      (bound (λ m. "{}") (record { id = "1"; timestamp = "2025"; fails = false }) entry)
    ≡ returns (
        entry_of
          (λ m. "{}")
          (λ row. "invalid")
          (record { id = "1"; timestamp = "2025"; fails = false })
          entry)
transform_audit_log_row-bound_example =
    transform_audit_log_row-bound (λ m. "{}") (λ row. "invalid")
      (record { id = "1"; timestamp = "2025"; fails = false }) entry (λ m. refl)
