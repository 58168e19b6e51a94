-- ===== src/Database.antt =====
-- utils/database.ts: `D1QueryBuilder`. A direction and a column are texts, as in the source; what runs a statement is a
-- parameter.
pub mod Placeholders
use gpg_signing_service.Common.{
  ℕ, String, Option, none, some, List, [], ◌∷◌, ◌++◌, map, if◌then◌else◌, ◌+s◌, join,
}
use gpg_signing_service.Common.Result.{Result, returns, throws, ◌>>=◌}

pub data Param : Type 0 where
  of_text : String → Param
  of_number : ℕ → Param

pub record D1QueryBuilder : Type 0 where
  pub conditions : List String
  pub params : List Param
  pub query : String

abbrev pub new_builder : String → D1QueryBuilder
new_builder base_query = record { conditions = []; params = []; query = base_query }

unfoldable pub where_equal : String → Param → D1QueryBuilder → D1QueryBuilder
where_equal column value b = record b {
  conditions = b.conditions ++ ((column +s " = ?") ∷ []);
  params = b.params ++ (value ∷ []);
}

unfoldable pub where_between : String → String → String → D1QueryBuilder → D1QueryBuilder
where_between column start end b = record b {
  conditions = b.conditions ++ ((column +s " BETWEEN ? AND ?") ∷ []);
  params = b.params ++ (of_text start ∷ of_text end ∷ []);
}

unfoldable pub order_by : (column direction : String) → D1QueryBuilder → D1QueryBuilder
order_by column direction b = record b {
  query = b.query +s (" ORDER BY " +s (column +s (" " +s direction)));
}

unfoldable pub limit : (limit offset : ℕ) → D1QueryBuilder → D1QueryBuilder
limit n offset b = record b {
  query = b.query +s " LIMIT ? OFFSET ?";
  params = b.params ++ (of_number n ∷ of_number offset ∷ []);
}

-- The statement with its parameters, which the builder keeps.
unfoldable pub build : D1QueryBuilder → D1QueryBuilder
unfolding join
build b = elim b.conditions [
  | [] ↦ b
  | _ ∷ _ ↦ record b { query = b.query +s (" WHERE " +s join " AND " b.conditions) }
]

-- `run` is the database: the rows of a statement with its parameters, if it has any.
unfoldable pub execute :
    {Row A : Type 0}
    → (run : String → List Param → Result (Option (List Row))) → (transformer : Row → A)
    → D1QueryBuilder
    → Result (List A)
unfolding build
execute run transformer b =
    let built = build b in
    run built.query built.params >>= λ results. elim results [
      | none ↦ returns []
      | some rows ↦ returns (map transformer rows)
    ]
