-- ===== src/Postgres/Update.antt =====
-- `UpdateBuilder` of postgres/update.go.
pub mod Sets
pub mod Refinement
mod Tests
pub mod Allowed
use txova_go_db.Prelude.{
  ℕ, ◌+◌, ◌++◌, List, [], ◌∷◌, Option, none, some, length, ltb, if◌then◌else◌, Result, ok, err,
  unless_error, ◌then_check◌,
}
use txova_go_db.Text.{Text, codes, join}
use txova_go_db.Text.Decimal.{decimal}
use txova_go_db.Postgres.Placeholders.{WhereClause, build_condition_clauses}
use txova_go_db.Postgres.QueryBuilder.{
  BuildError, no_sets, invalid_returning, Query, Panicking, returned, panicked, QueryBuilder,
  new_query_builder, validate_column_name, validate_table_name, in_condition, and_clause, or_clause,
  returning_clause, replaced,
}

pub record SetClause (A : Type 0) : Type 0 where
  pub column : Text
  pub value : A

pub record UpdateBuilder (A : Type 0) : Type 0 where
  pub query_builder : QueryBuilder
  pub table : Text
  pub sets : List (SetClause A)
  pub wheres : List (WhereClause A)
  pub returning : List Text

-- The loop over the RETURNING columns.
pub validate_returning : QueryBuilder → List Text → Option BuildError
validate_returning qb [] = none
validate_returning qb (col ∷ cols) =
    replaced (validate_column_name qb col) (invalid_returning col)
    then_check validate_returning qb cols

module _ {A : Type 0} where
  unfoldable pub update_with_allowlist : Text → List Text → UpdateBuilder A
  update_with_allowlist table allowed_columns = record {
    query_builder = new_query_builder allowed_columns;
    table = table;
    sets = [];
    wheres = [];
    returning = [];
  }

  unfoldable pub update : Text → UpdateBuilder A
  unfolding update_with_allowlist
  update table = update_with_allowlist table []

  unfoldable pub set_value : Text → A → UpdateBuilder A → UpdateBuilder A
  set_value column value u = record u {
    sets = u.sets ++ record { column = column; value = value } ∷ [];
  }

  -- The entries of the map in the order in which the loop meets them, which Go leaves open.
  unfoldable pub set_map : List (Text × A) → UpdateBuilder A → UpdateBuilder A
  unfolding set_value
  set_map [] u = u
  set_map ((col, val) ∷ entries) u = set_map entries (set_value col val u)

  add_where : WhereClause A → UpdateBuilder A → UpdateBuilder A
  add_where w u = record u { wheres = u.wheres ++ w ∷ [] }

  unfoldable pub and_where : Text → List A → UpdateBuilder A → UpdateBuilder A
  unfolding add_where
  and_where condition args = add_where (and_clause condition args)

  unfoldable pub or_where : Text → List A → UpdateBuilder A → UpdateBuilder A
  unfolding add_where
  or_where condition args = add_where (or_clause condition args)

  unfoldable pub where_in : Text → List A → UpdateBuilder A → UpdateBuilder A
  unfolding add_where
  where_in column [] u = u
  where_in column (v ∷ vs) u =
      add_where (and_clause (in_condition column (codes " IN") (length (v ∷ vs))) (v ∷ vs)) u

  unfoldable pub returning : List Text → UpdateBuilder A → UpdateBuilder A
  returning cols u = record u { returning = u.returning ++ cols }

  -- The loop over the assigned columns.
  pub validate_sets : QueryBuilder → List (SetClause A) → Option BuildError
  validate_sets qb [] = none
  validate_sets qb (s ∷ sets) = validate_column_name qb s.column then_check validate_sets qb sets

  pub validate_update : UpdateBuilder A → Option BuildError
  validate_update u =
      validate_table_name u.table
      then_check (if ltb 0 (length u.sets) then none else some no_sets)
      then_check validate_sets u.query_builder u.sets
      then_check validate_returning u.query_builder u.returning

  -- The parts `column = $n`, the values, and the next index.
  set_loop : List (SetClause A) → ℕ → List Text × List A × ℕ
  set_loop [] arg_index = ([], [], arg_index)
  set_loop (s ∷ sets) arg_index =
      let (set_parts, args, next) = set_loop sets (arg_index + 1) in
      ((s.column ++ (codes " = $" ++ decimal arg_index)) ∷ set_parts, s.value ∷ args, next)

  pub build_set_clause : List (SetClause A) → ℕ → Text × List A × ℕ
  unfolding set_loop
  build_set_clause sets arg_index =
      let (set_parts, args, next) = set_loop sets arg_index in
      (join set_parts (codes ", "), args, next)

  -- The loop of `buildConditionClauses`, written out again in the source.
  pub build_where_clause : List (WhereClause A) → ℕ → Text × List A × ℕ
  build_where_clause wheres arg_index = build_condition_clauses wheres (codes " WHERE ") arg_index

  -- `UPDATE table SET `
  pub update_front : UpdateBuilder A → Text
  update_front u = codes "UPDATE " ++ (u.table ++ codes " SET ")

  pub build_parts : UpdateBuilder A → Query A
  unfolding update_front
  build_parts u =
      let (set_clause, set_args, after_sets) = build_set_clause u.sets 1 in
      let (where_clause, where_args, _) = build_where_clause u.wheres after_sets in
      (
        update_front u ++ (set_clause ++ (where_clause ++ returning_clause u.returning)),
        set_args ++ where_args,
      )

  pub build : UpdateBuilder A → Result BuildError (Query A)
  build u = unless_error (validate_update u) (build_parts u)

  unfoldable must_build : UpdateBuilder A → Panicking (Query A)
  must_build u = elim (build u) [ ok q ↦ returned q | err e ↦ panicked e ]

  unfoldable sql : UpdateBuilder A → Text
  sql u = elim (build u) [ ok (text, _) ↦ text | err _ ↦ [] ]

  unfoldable args : UpdateBuilder A → List A
  args u = elim (build u) [ ok (_, vs) ↦ vs | err _ ↦ [] ]
