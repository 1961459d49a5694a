-- ===== src/Postgres/Select/Validate.antt =====
-- The validation of `SelectBuilder` in postgres/query.go.
use txova_go_db.Prelude.{◌||◌, List, [], ◌∷◌, Option, none, if◌then◌else◌, ◌then_check◌}
use txova_go_db.Text.{Text, text_eq, trim_space}
use txova_go_db.Postgres.QueryBuilder.{
  QueryBuilder, BuildError, invalid_group_by, invalid_order_by, validate_column_name,
  validate_table_name, star, replaced,
}
use txova_go_db.Postgres.Select.{SelectBuilder, OrderByClause}

-- One round of the loop over the columns.
unfoldable pub validate_select_column : QueryBuilder → Text → Option BuildError
validate_select_column qb col = if text_eq col star then none else validate_column_name qb col

unfoldable pub validate_select_columns : QueryBuilder → List Text → Option BuildError
validate_select_columns qb [] = none
validate_select_columns qb (col ∷ cols) =
    validate_select_column qb col then_check validate_select_columns qb cols

-- An entry of GROUP BY or ORDER BY without its spaces; the empty text and `*` are passed over.
unfoldable pub validate_entry : QueryBuilder → Text → BuildError → Option BuildError
validate_entry qb entry e =
    if text_eq entry [] || text_eq entry star
    then none
    else replaced (validate_column_name qb entry) e

unfoldable pub validate_group_by_columns : QueryBuilder → List Text → Option BuildError
validate_group_by_columns qb [] = none
validate_group_by_columns qb (entry ∷ rest) =
    let trimmed = trim_space entry in
    validate_entry qb trimmed (invalid_group_by trimmed)
    then_check validate_group_by_columns qb rest

unfoldable pub validate_order_by_columns : QueryBuilder → List OrderByClause → Option BuildError
validate_order_by_columns qb [] = none
validate_order_by_columns qb (entry ∷ rest) =
    let col = trim_space entry.column in
    validate_entry qb col (invalid_order_by col) then_check validate_order_by_columns qb rest

unfoldable pub validate_select : {A : Type 0} → SelectBuilder A → Option BuildError
validate_select s =
    validate_table_name s.table
    then_check validate_select_columns s.query_builder s.columns
    then_check validate_group_by_columns s.query_builder s.group_by
    then_check validate_order_by_columns s.query_builder s.order_by
