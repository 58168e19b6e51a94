-- ===== src/Database/Placeholders.antt =====
-- The placeholders of a built statement and its parameters.
use text.Mathlib.TextLemmas.{cons-append, nil-append}
use gpg_signing_service.Common.{
  ℕ, ◌+◌, code, String, ◌≡◌, refl, List, [], ◌∷◌, ◌++◌, eqb, if◌then◌else◌, ◌+s◌, join, length,
  arith,
}
use gpg_signing_service.Database.{
  Param, of_text, of_number, D1QueryBuilder, new_builder, where_equal, where_between, order_by,
  limit, build,
}

-- How many question marks a text has.
abbrev pub marks : String → ℕ
marks String.[] = 0
marks (String.◌∷◌ c s) = (if eqb (code c) b'?' then 1 else 0) + marks s

marks-append : (s t : String) → marks (s +s t) ≡ marks s + marks t
marks-append String.[] t = rw nil-append (omega arith)
marks-append (String.◌∷◌ c s) t = rw (cons-append, marks-append s t) (omega arith)

abbrev all_marks : List String → ℕ
all_marks [] = 0
all_marks (s ∷ ss) = marks s + all_marks ss

all_marks-append :
    (ss : List String) (s : String) → all_marks (ss ++ (s ∷ [])) ≡ all_marks ss + marks s
all_marks-append [] s = omega arith
all_marks-append (r ∷ ss) s = rw (all_marks-append ss s) (omega arith)

marks-join :
    (s : String) (ss : List String) → marks (join " AND " (s ∷ ss)) ≡ marks s + all_marks ss
unfolding join
marks-join s [] = omega arith
marks-join s (t ∷ ss) = rw (marks-append, marks-append, marks-join t ss) (omega arith)

length-append : (ps qs : List Param) → length (ps ++ qs) ≡ length ps + length qs
length-append [] qs = omega arith
length-append (p ∷ ps) qs = rw (length-append ps qs) (omega arith)

-- The calls of a builder before it is built.
pub data Call : Type 0 where
  equal : String → Param → Call
  between : String → String → String → Call
  ordered : String → String → Call
  limited : ℕ → ℕ → Call

abbrev pub call : Call → D1QueryBuilder → D1QueryBuilder
call (equal column value) b = where_equal column value b
call (between column start end) b = where_between column start end b
call (ordered column direction) b = order_by column direction b
call (limited n offset) b = limit n offset b

abbrev pub calls : List Call → D1QueryBuilder → D1QueryBuilder
calls [] b = b
calls (c ∷ cs) b = calls cs (call c b)

-- The question marks in the columns and directions that a call is given.
abbrev pub given_marks : Call → ℕ
given_marks (equal column value) = marks column
given_marks (between column start end) = marks column
given_marks (ordered column direction) = marks column + marks direction
given_marks (limited n offset) = 0

abbrev pub all_given : List Call → ℕ
all_given [] = 0
all_given (c ∷ cs) = given_marks c + all_given cs

-- The placeholders so far, in the statement and in the conditions.
abbrev placeholders : D1QueryBuilder → ℕ
placeholders b = marks b.query + all_marks b.conditions

call-placeholders :
    (c : Call) (b : D1QueryBuilder)
    → placeholders (call c b) + length b.params
      ≡ placeholders b + (length (call c b).params + given_marks c)
unfolding where_equal where_between order_by limit
call-placeholders (equal column value) b =
    rw
      (
        all_marks-append b.conditions (column +s " = ?"),
        marks-append column " = ?",
        length-append b.params (value ∷ []),
      )
      (omega arith)
call-placeholders (between column start end) b =
    rw
      (
        all_marks-append b.conditions (column +s " BETWEEN ? AND ?"),
        marks-append column " BETWEEN ? AND ?",
        length-append b.params (of_text start ∷ of_text end ∷ []),
      )
      (omega arith)
call-placeholders (ordered column direction) b =
    rw
      (
        marks-append b.query (" ORDER BY " +s (column +s (" " +s direction))),
        marks-append " ORDER BY " (column +s (" " +s direction)),
        marks-append column (" " +s direction),
        marks-append " " direction,
      )
      (omega arith)
call-placeholders (limited n offset) b =
    rw
      (
        marks-append b.query " LIMIT ? OFFSET ?",
        length-append b.params (of_number n ∷ of_number offset ∷ []),
      )
      (omega arith)

calls-placeholders :
    (cs : List Call) (b : D1QueryBuilder)
    → placeholders (calls cs b) + length b.params
      ≡ placeholders b + (length (calls cs b).params + all_given cs)
calls-placeholders [] b = omega arith
calls-placeholders (c ∷ cs) b =
    let rest = calls-placeholders cs (call c b) in let first = call-placeholders c b in omega arith

build-placeholders : (b : D1QueryBuilder) → marks (build b).query ≡ placeholders b
unfolding build
build-placeholders b = built b.conditions refl
  where
    built :
        (conditions : List String)
        → b.conditions ≡ conditions
        → marks (build b).query ≡ placeholders b
    built [] e = rw (e, build) (omega arith)
    built (s ∷ ss) e = rw (e, build, e, marks-append, marks-append, marks-join s ss) (omega arith)

build-params : (b : D1QueryBuilder) → (build b).params ≡ b.params
unfolding build
build-params b = built b.conditions refl
  where
    built : (conditions : List String) → b.conditions ≡ conditions → (build b).params ≡ b.params
    built [] e = rw (e, build) refl
    built (s ∷ ss) e = rw (e, build) refl

-- Whatever calls a builder has had, the statement that it builds first has one placeholder for each parameter, besides
-- the question marks in the texts that it has been given for the statement, for columns and for directions.
pub build-placeholders_of_calls :
    (base_query : String) (cs : List Call)
    → marks (build (calls cs (new_builder base_query))).query
      ≡ length (build (calls cs (new_builder base_query))).params
        + (marks base_query + all_given cs)
build-placeholders_of_calls base_query cs =
    let b = calls cs (new_builder base_query) in
    rw (build-placeholders b, build-params b)
      (let counted = calls-placeholders cs (new_builder base_query) in omega arith)
