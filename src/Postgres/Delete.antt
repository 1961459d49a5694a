-- ===== src/Postgres/Delete.antt =====
-- `DeleteBuilder` of postgres/delete.go.
pub mod Refinement
mod Tests
use txova_go_db.Prelude.{
  ◌++◌, Bool, true, false, ◌&&◌, not, List, [], ◌∷◌, Option, none, some, length, ltb, if◌then◌else◌,
  Result, ok, err, unless_error, ◌then_check◌,
}
use txova_go_db.Text.{Text, codes}
use txova_go_db.Postgres.Placeholders.{WhereClause, build_condition_clauses}
use txova_go_db.Postgres.QueryBuilder.{
  BuildError, unrestricted_delete, Query, Panicking, returned, panicked, QueryBuilder,
  new_query_builder, validate_table_name, in_condition, and_clause, or_clause, returning_clause,
}

pub record DeleteBuilder (A : Type 0) : Type 0 where
  pub query_builder : QueryBuilder
  pub table : Text
  pub wheres : List (WhereClause A)
  pub returning : List Text
  pub allow_unrestricted : Bool

module _ {A : Type 0} where
  unfoldable pub delete_with_allowlist : Text → List Text → DeleteBuilder A
  delete_with_allowlist table allowed_columns = record {
    query_builder = new_query_builder allowed_columns;
    table = table;
    wheres = [];
    returning = [];
    allow_unrestricted = false;
  }

  unfoldable pub delete : Text → DeleteBuilder A
  unfolding delete_with_allowlist
  delete table = delete_with_allowlist table []

  add_where : WhereClause A → DeleteBuilder A → DeleteBuilder A
  add_where w d = record d { wheres = d.wheres ++ w ∷ [] }

  unfoldable pub and_where : Text → List A → DeleteBuilder A → DeleteBuilder A
  unfolding add_where
  and_where condition args = add_where (and_clause condition args)

  unfoldable pub or_where : Text → List A → DeleteBuilder A → DeleteBuilder A
  unfolding add_where
  or_where condition args = add_where (or_clause condition args)

  unfoldable pub where_in : Text → List A → DeleteBuilder A → DeleteBuilder A
  unfolding add_where
  where_in column [] d = d
  where_in column (v ∷ vs) d =
      add_where (and_clause (in_condition column (codes " IN") (length (v ∷ vs))) (v ∷ vs)) d

  unfoldable pub returning : List Text → DeleteBuilder A → DeleteBuilder A
  returning cols d = record d { returning = d.returning ++ cols }

  unfoldable pub allow_unrestricted_delete : DeleteBuilder A → DeleteBuilder A
  allow_unrestricted_delete d = record d { allow_unrestricted = true }

  -- The checks at the head of `Build`.
  pub validate_delete : DeleteBuilder A → Option BuildError
  validate_delete d =
      validate_table_name d.table
      then_check (if not (ltb 0 (length d.wheres)) && not d.allow_unrestricted
          then some unrestricted_delete
          else none)

  -- The loop over the conditions is that of `buildConditionClauses`, written out again.
  pub build_parts : DeleteBuilder A → Query A
  build_parts d =
      let (where_clause, args, _) = build_condition_clauses d.wheres (codes " WHERE ") 1 in
      ((codes "DELETE FROM " ++ d.table) ++ (where_clause ++ returning_clause d.returning), args)

  pub build : DeleteBuilder A → Result BuildError (Query A)
  unfolding validate_delete
  build d = unless_error (validate_delete d) (build_parts d)

  unfoldable must_build : DeleteBuilder A → Panicking (Query A)
  must_build d = elim (build d) [ ok q ↦ returned q | err e ↦ panicked e ]

  unfoldable sql : DeleteBuilder A → Text
  sql d = elim (build d) [ ok (text, _) ↦ text | err _ ↦ [] ]

  unfoldable args : DeleteBuilder A → List A
  args d = elim (build d) [ ok (_, vs) ↦ vs | err _ ↦ [] ]
