-- ===== src/Audit/Query.antt =====
-- `getAuditLogs` of utils/audit.ts, and the route of routes/admin.ts that calls it. The statement is the list of its
-- conditions with their parameters; what the database does with a condition on texts and with the order is a parameter.
use gpg_signing_service.Common.{
  ltb, All, ℕ, zero, suc, Char, code, String, ◌≡◌, Bool, true, false, Option, List, [], ◌∷◌, ◌++◌,
  all, keep, length, eqb, ◌&&◌, ◌||◌, if◌then◌else◌, truthy?, or_text, ◌+s◌, ◌==◌,
}
use mathlib.Core.List.{Perm}
use gpg_signing_service.Http.{ok, internal_server_error}
use gpg_signing_service.Errors.{Outcome, success, failure, audit_error}
use gpg_signing_service.Audit.{
  AuditAction, sign, key_upload, key_rotate, token_create, token_revoke, AuditRow,
}

-- [%_\\]
abbrev pub is_special : ℕ → Bool
is_special c = eqb c b'%' || (eqb c b'_' || eqb c 92)

-- The database on texts: `fold` is what LIKE takes letters for, `like p s` is `s LIKE p ESCAPE '\'`, by its documentation;
-- `text_le` is `<=` on texts, which are compared
-- by their bytes: as numbers of the characters they come in the same order.
pub record Texts : Type 0 where
  pub fold : ℕ → ℕ
  pub like : String → String → Bool
  pub text_le : String → String → Bool
  pub like-end : (c : Char) (s : String) → (like "" "" ≡ true) × (like "" (String.◌∷◌ c s) ≡ false)
  pub le-end :
      (c : Char) (s : String) → (text_le "" s ≡ true) × (text_le (String.◌∷◌ c s) "" ≡ false)
  pub le-first :
      (c d : Char) (s t : String)
      → text_le (String.◌∷◌ c s) (String.◌∷◌ d t)
        ≡ (ltb (code c) (code d) || (eqb (code c) (code d) && text_le s t))
  -- any text, then the rest of the pattern
  pub like-percent :
      (c : Char) (p s : String)
      → (like (String.◌∷◌ "%" p) "" ≡ like p "")
        × (like (String.◌∷◌ "%" p) (String.◌∷◌ c s)
            ≡ (like p (String.◌∷◌ c s) || like (String.◌∷◌ "%" p) s))
  -- an escaped character stands for itself
  pub like-escaped :
      (d c : Char) (p s : String)
      → is_special (code d) ≡ true
      → (like (String.◌∷◌ "\\" (String.◌∷◌ d p)) "" ≡ false)
        × (like (String.◌∷◌ "\\" (String.◌∷◌ d p)) (String.◌∷◌ c s)
            ≡ (eqb (fold (code d)) (fold (code c)) && like p s))
  pub like-plain :
      (d c : Char) (p s : String)
      → is_special (code d) ≡ false
      → (like (String.◌∷◌ d p) "" ≡ false)
        × (like (String.◌∷◌ d p) (String.◌∷◌ c s)
            ≡ (eqb (fold (code d)) (fold (code c)) && like p s))

pub record AuditQuery : Type 0 where
  pub limit : ℕ
  pub offset : ℕ
  pub action : Option String
  pub subject : Option String
  pub start_date : Option String
  pub end_date : Option String

-- subject.replace(/[%_\\]/g, "\\$&")
unfoldable pub escape : String → String
escape String.[] = ""
escape (String.◌∷◌ c s) =
    if is_special (code c)
    then String.◌∷◌ "\\" (String.◌∷◌ c (escape s))
    else String.◌∷◌ c (escape s)

-- A condition of the statement, with its parameter.
pub data Condition : Type 0 where
  action_is subject_like from_date to_date : String → Condition

-- `if (value)`, with the condition that it appends
abbrev pub where_given : Option String → (String → Condition) → List Condition
where_given value condition = if truthy? value then condition (or_text value "") ∷ [] else []

unfoldable pub conditions : AuditQuery → List Condition
unfolding escape
conditions q =
    where_given q.action action_is
    ++ (where_given q.subject (λ s. subject_like ("%" +s (escape s +s "%")))
        ++ (where_given q.start_date from_date ++ where_given q.end_date to_date))

abbrev pub action_text : AuditAction → String
action_text sign = "sign"
action_text key_upload = "key_upload"
action_text key_rotate = "key_rotate"
action_text token_create = "token_create"
action_text token_revoke = "token_revoke"

abbrev pub drop_rows : ℕ → List AuditRow → List AuditRow
drop_rows zero rows = rows
drop_rows (suc n) [] = []
drop_rows (suc n) (row ∷ rows) = drop_rows n rows

abbrev pub take_rows : ℕ → List AuditRow → List AuditRow
take_rows zero rows = []
take_rows (suc n) [] = []
take_rows (suc n) (row ∷ rows) = row ∷ take_rows n rows

-- The rows stand in the order of their times, as texts, the latest first.
abbrev pub NewestFirst : Texts → List AuditRow → Type 0
NewestFirst T [] = Unit
NewestFirst T (row ∷ rows) =
    All (λ r. T.text_le r.timestamp row.timestamp ≡ true) rows × NewestFirst T rows

-- What the database makes of ORDER BY timestamp DESC: it chooses the order of rows with the same time.
pub record Newest (T : Texts) : Type 0 where
  pub newest_first : List AuditRow → List AuditRow
  pub perm : (rows : List AuditRow) → Perm (newest_first rows) rows
  pub ordered : (rows : List AuditRow) → NewestFirst T (newest_first rows)

pub record AuditLogs : Type 0 where
  pub logs : List AuditRow
  pub count : ℕ

module _ (T : Texts) (N : Newest T) where
  open T use {like, text_le}
  open N use {newest_first}

  abbrev pub holds : AuditRow → Condition → Bool
  holds row (action_is action) = action_text row.entry.action == action
  holds row (subject_like pattern) = like pattern row.entry.subject
  holds row (from_date date) = text_le date row.timestamp
  holds row (to_date date) = text_le row.timestamp date

  -- ORDER BY timestamp DESC LIMIT ? OFFSET ?
  unfoldable pub get_audit_logs : AuditQuery → List AuditRow → List AuditRow
  unfolding conditions
  get_audit_logs q rows =
      take_rows q.limit
        (drop_rows q.offset (newest_first (keep (λ row. all (holds row) (conditions q)) rows)))

  -- `GET /admin/audit`: the statement may reject.
  unfoldable pub audit_logs_route :
      (statement_fails : Bool) → AuditQuery → List AuditRow → Outcome AuditLogs
  unfolding get_audit_logs
  audit_logs_route statement_fails q rows =
      if statement_fails
      then failure internal_server_error "Failed to retrieve audit logs" audit_error
      else success ok
          (record { logs = get_audit_logs q rows; count = length (get_audit_logs q rows) })
