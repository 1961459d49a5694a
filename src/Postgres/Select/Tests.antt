-- ===== src/Postgres/Select/Tests.antt =====
-- A query with an allowlist, run through `Build`, and the theorems on it.
use txova_go_db.Prelude.{ℕ, ◌≡◌, ◌≢◌, ◌↔◌, refl, arith, [], ◌∷◌, none, some, ok, true, false}
use txova_go_db.Prelude.Int.{pos}
use txova_go_db.Text.{codes, text_eq, join, tail_of_join, trim_space, to_upper}
use txova_go_db.Text.Decimal.{decimal, decimal_ℤ}
use txova_go_db.Postgres.Identifier.{column_name_matches}
use txova_go_db.Postgres.Placeholders.{replace_placeholders, build_condition_clauses}
use txova_go_db.Postgres.Placeholders.Numbering.{count_marks}
use txova_go_db.Postgres.Placeholders.Clauses.{raw_clauses}
use txova_go_db.Postgres.Placeholders.Parameters.{IsPlain, parameters}
use txova_go_db.Postgres.QueryBuilder.{
  Query, and_clause, contains, validate_column_name, validate_table_name,
}
use txova_go_db.Postgres.Select.Setters.{Built-HasArgs, new, with_join, with_in, with_between}
use txova_go_db.Postgres.Select.{
  where_between, where_in, add_join, select_with_allowlist, SelectBuilder, inner_join,
}
use txova_go_db.Postgres.Select.Validate.{
  validate_select, validate_select_columns, validate_select_column, validate_group_by_columns,
  validate_order_by_columns, validate_entry,
}
use txova_go_db.Postgres.Select.Build.{
  build, build_parts, build_tail, build_select_clause, build_join_clauses, join_front, join_keyword,
  build_order_by_clause, order_part, build_limit_offset_clause, build_locking_clause,
  build_group_by_clause,
}
use txova_go_db.Postgres.Select.Allowed.{build-IsAllowed, IsAllowed}
use txova_go_db.Postgres.Select.Numbering.{raw_select, raw_joins, HasNoMarks, HasArgs}
use txova_go_db.Postgres.Select.Refinement.{parameters-build}

abbrev rides : SelectBuilder ℕ
rides = record {
  query_builder = record { allowed_columns = codes "id" ∷ codes "city" ∷ [] };
  table = codes "r";
  columns = codes "id" ∷ [];
  distinct = false;
  wheres = and_clause (codes "a = ?") (7 ∷ []) ∷ and_clause (codes "b > ?") (8 ∷ []) ∷ [];
  joins =
      record { join_type = inner_join; table = codes "c"; condition = codes "d = ?"; args = 6 ∷ [] }
      ∷ [];
  order_by = record { column = codes " city"; direction = codes "desc" } ∷ [];
  limit = some (pos 5);
  offset = none;
  group_by = codes "id" ∷ [];
  having = and_clause (codes "e < ?") (9 ∷ []) ∷ [];
  for_update = true;
  for_share = false;
}

abbrev rides_query : Query ℕ
rides_query = (
  codes
      "SELECT id FROM r INNER JOIN c ON d = $1 WHERE a = $2 AND b > $3 GROUP BY id HAVING e < $4 ORDER BY  city DESC LIMIT 5 FOR UPDATE",
  6 ∷ 7 ∷ 8 ∷ 9 ∷ [],
)

build-rides : build rides ≡ ok rides_query
unfolding build validate_select validate_select_columns validate_select_column
    validate_group_by_columns validate_order_by_columns validate_entry validate_column_name
    validate_table_name contains column_name_matches text_eq trim_space build_parts build_tail
    build_select_clause build_join_clauses join_front join_keyword build_order_by_clause order_part
    build_limit_offset_clause build_locking_clause build_group_by_clause build_condition_clauses
    replace_placeholders join tail_of_join to_upper decimal decimal_ℤ
build-rides = refl

rides-HasNoMarks : HasNoMarks rides
rides-HasNoMarks = record {
  columns = omega arith;
  join_tables = omega arith;
  group_by = omega arith;
  order_by = omega arith;
}

rides-HasArgs : HasArgs rides
unfolding count_marks
rides-HasArgs = record { joins = (refl, tt); wheres = (refl, (refl, tt)); having = (refl, tt) }

rides-IsPlain : IsPlain false (raw_select rides)
unfolding raw_select raw_joins raw_clauses build_select_clause join_front join_keyword
    build_group_by_clause build_tail build_order_by_clause order_part build_limit_offset_clause
    build_locking_clause join tail_of_join to_upper decimal decimal_ℤ text_eq
rides-IsPlain = ground arith

parameters-build_example : parameters rides_query.0 ≡ 1 ∷ 2 ∷ 3 ∷ 4 ∷ []
parameters-build_example =
    parameters-build rides build-rides rides-HasNoMarks rides-HasArgs rides-IsPlain

rides_listed : rides.query_builder.allowed_columns ≢ []
rides_listed e = cc

build-IsAllowed_example : ((q : Query ℕ) × (build rides ≡ ok q)) ↔ IsAllowed rides
build-IsAllowed_example = build-IsAllowed rides rides_listed

-- The columns in (1, 2), a join, a range and a page, by the methods.
abbrev searched : SelectBuilder ℕ
searched = where_between (codes "age") 18 65 (
    where_in (codes "id") (1 ∷ 2 ∷ []) (
      add_join inner_join (codes "c") (codes "c.id = ?") (3 ∷ [])
        (select_with_allowlist (codes "r") [])))

Built-HasArgs_example : HasArgs searched
unfolding count_marks
Built-HasArgs_example = Built-HasArgs (
    with_between (codes "age") 18 65 (omega arith) (
      with_in (codes "id") (1 ∷ 2 ∷ []) (omega arith)
        (with_join inner_join (codes "c") (codes "c.id = ?") (3 ∷ []) refl (new (codes "r") []))))
