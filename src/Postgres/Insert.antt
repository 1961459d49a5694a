-- ===== src/Postgres/Insert.antt =====
-- `InsertBuilder` of postgres/insert.go.
pub mod Values
pub mod Refinement
pub mod Allowed
mod Tests
use txova_go_db.Prelude.{
  ℕ, ◌+◌, ◌++◌, Bool, true, false, List, [], ◌∷◌, Option, none, some, length, ltb, ◌==◌,
  if◌then◌else◌, not, Result, ok, err, unless_error, ◌then_check◌,
}
use txova_go_db.Text.{Text, codes, text_eq, join}
use txova_go_db.Text.Decimal.{decimal}
use txova_go_db.Postgres.QueryBuilder.{
  BuildError, no_columns, no_values, row_length, invalid_returning, invalid_conflict_constraint,
  invalid_conflict_column, Query, Panicking, returned, panicked, QueryBuilder, new_query_builder,
  validate_column_name, validate_table_name, returning_clause, replaced, star,
}

pub record ConflictClause : Type 0 where
  pub columns : List Text
  pub do_nothing : Bool
  pub constraint : Text

pub record InsertBuilder (A : Type 0) : Type 0 where
  pub query_builder : QueryBuilder
  pub table : Text
  pub columns : List Text
  pub values : List (List A)
  pub returning : List Text
  pub on_conflict : Option ConflictClause

pub validate_columns : QueryBuilder → List Text → Option BuildError
validate_columns qb [] = none
validate_columns qb (col ∷ cols) = validate_column_name qb col then_check validate_columns qb cols

pub validate_insert_columns : QueryBuilder → List Text → Option BuildError
unfolding validate_columns
validate_insert_columns qb columns =
    if ltb 0 (length columns) then validate_columns qb columns else some no_columns

pub validate_returning_columns : QueryBuilder → List Text → Option BuildError
validate_returning_columns qb [] = none
validate_returning_columns qb (col ∷ cols) =
    (if text_eq col star
      then none
      else replaced (validate_column_name qb col) (invalid_returning col))
    then_check validate_returning_columns qb cols

pub validate_conflict_columns : QueryBuilder → List Text → Option BuildError
validate_conflict_columns qb [] = none
validate_conflict_columns qb (col ∷ cols) =
    replaced (validate_column_name qb col) (invalid_conflict_column col)
    then_check validate_conflict_columns qb cols

pub validate_on_conflict : QueryBuilder → Option ConflictClause → Option BuildError
unfolding validate_conflict_columns
validate_on_conflict qb none = none
validate_on_conflict qb (some c) =
    (if not (text_eq c.constraint [])
      then replaced (validate_table_name c.constraint) (invalid_conflict_constraint c.constraint)
      else none)
    then_check validate_conflict_columns qb c.columns

unfoldable pub build_on_conflict_clause : Option ConflictClause → Text
build_on_conflict_clause none = []
build_on_conflict_clause (some c) =
    codes " ON CONFLICT"
    ++ ((if not (text_eq c.constraint [])
          then codes " ON CONSTRAINT " ++ c.constraint
          else if ltb 0 (length c.columns)
          then codes " (" ++ (join c.columns (codes ", ") ++ codes ")")
          else [])
        ++ (if c.do_nothing then codes " DO NOTHING" else []))

module _ {A : Type 0} where
  unfoldable pub insert_with_allowlist : Text → List Text → InsertBuilder A
  insert_with_allowlist table allowed_columns = record {
    query_builder = new_query_builder allowed_columns;
    table = table;
    columns = [];
    values = [];
    returning = [];
    on_conflict = none;
  }

  unfoldable pub insert : Text → InsertBuilder A
  unfolding insert_with_allowlist
  insert table = insert_with_allowlist table []

  -- The columns are replaced, not added.
  unfoldable pub columns : List Text → InsertBuilder A → InsertBuilder A
  columns cols i = record i { columns = cols }

  unfoldable pub values : List A → InsertBuilder A → InsertBuilder A
  values row i = record i { values = i.values ++ row ∷ [] }

  unfoldable pub returning : List Text → InsertBuilder A → InsertBuilder A
  returning cols i = record i { returning = i.returning ++ cols }

  unfoldable pub on_conflict_do_nothing : List Text → InsertBuilder A → InsertBuilder A
  on_conflict_do_nothing cols i = record i {
    on_conflict = some (record { columns = cols; do_nothing = true; constraint = [] });
  }

  unfoldable pub on_conflict_constraint_do_nothing : Text → InsertBuilder A → InsertBuilder A
  on_conflict_constraint_do_nothing constraint i = record i {
    on_conflict = some (record { columns = []; do_nothing = true; constraint = constraint });
  }

  pub row_error : ℕ → ℕ → List A → Option BuildError
  row_error cols idx row =
      if length row == cols then none else some (row_length idx (length row) cols)

  -- The rows from index `idx` on.
  pub validate_rows : ℕ → ℕ → List (List A) → Option BuildError
  validate_rows cols idx [] = none
  validate_rows cols idx (row ∷ rest) =
      row_error cols idx row then_check validate_rows cols (idx + 1) rest

  pub validate_insert_values : ℕ → List (List A) → Option BuildError
  unfolding validate_rows row_error
  validate_insert_values cols rows =
      if ltb 0 (length rows) then validate_rows cols 0 rows else some no_values

  pub validate_insert : InsertBuilder A → Option BuildError
  validate_insert i =
      validate_table_name i.table
      then_check validate_insert_columns i.query_builder i.columns
      then_check validate_insert_values (length i.columns) i.values
      then_check validate_returning_columns i.query_builder i.returning
      then_check validate_on_conflict i.query_builder i.on_conflict

  -- The placeholders of one row, and the next index.
  row_loop : List A → ℕ → List Text × ℕ
  row_loop [] arg_index = ([], arg_index)
  row_loop (v ∷ vs) arg_index =
      let (placeholders, next) = row_loop vs (arg_index + 1) in
      ((b'$' ∷ decimal arg_index) ∷ placeholders, next)

  -- The rows in parentheses, and their values.
  rows_loop : List (List A) → ℕ → List Text × List A
  unfolding row_loop
  rows_loop [] arg_index = ([], [])
  rows_loop (row ∷ rest) arg_index =
      let (placeholders, next) = row_loop row arg_index in
      let (value_parts, args) = rows_loop rest next in
      ((codes "(" ++ (join placeholders (codes ", ") ++ codes ")")) ∷ value_parts, row ++ args)

  pub build_values_clause : List (List A) → Query A
  unfolding rows_loop
  build_values_clause rows =
      let (value_parts, args) = rows_loop rows 1 in (join value_parts (codes ", "), args)

  -- What stands in front of the values.
  pub insert_front : InsertBuilder A → Text
  insert_front i =
      codes "INSERT INTO "
      ++ (i.table ++ (codes " (" ++ (join i.columns (codes ", ") ++ codes ") VALUES ")))

  -- What stands behind them.
  pub insert_tail : InsertBuilder A → Text
  insert_tail i = build_on_conflict_clause i.on_conflict ++ returning_clause i.returning

  pub build_parts : InsertBuilder A → Query A
  build_parts i =
      let (values_clause, args) = build_values_clause i.values in
      (insert_front i ++ (values_clause ++ insert_tail i), args)

  unfoldable pub build : InsertBuilder A → Result BuildError (Query A)
  unfolding build_parts insert_front insert_tail
  build i = unless_error (validate_insert i) (build_parts i)

  unfoldable pub must_build : InsertBuilder A → Panicking (Query A)
  must_build i = elim (build i) [ ok q ↦ returned q | err e ↦ panicked e ]

  unfoldable pub sql : InsertBuilder A → Text
  sql i = elim (build i) [ ok (text, _) ↦ text | err _ ↦ [] ]

  unfoldable pub args : InsertBuilder A → List A
  args i = elim (build i) [ ok (_, vs) ↦ vs | err _ ↦ [] ]
