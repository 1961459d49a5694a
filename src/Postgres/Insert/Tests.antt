-- ===== src/Postgres/Insert/Tests.antt =====
-- A statement of two rows with an allowlist, run through `Build`, and the theorems on it.
use txova_go_db.Prelude.{ℕ, ◌≡◌, ◌*◌, refl, [], ◌∷◌, some, length, ok, true, false, arith}
use txova_go_db.Text.{codes, text_eq, join, tail_of_join}
use txova_go_db.Text.Decimal.{decimal}
use txova_go_db.Postgres.Identifier.{column_name_matches}
use txova_go_db.Postgres.Placeholders.{replace_placeholders}
use txova_go_db.Postgres.Placeholders.Parameters.{IsPlain}
use txova_go_db.Postgres.QueryBuilder.{
  Query, contains, validate_column_name, validate_table_name, returning_clause, star,
}
use txova_go_db.Postgres.Insert.{
  InsertBuilder, validate_insert, validate_insert_columns, validate_insert_values,
  validate_returning_columns, validate_on_conflict, build_values_clause, build_on_conflict_clause,
  build_parts, build, insert_front, insert_tail,
}
use txova_go_db.Postgres.Insert.Values.{raw_values, raw_row, all_values}
use txova_go_db.Prelude.{◌≢◌}
use txova_go_db.Postgres.Insert.Refinement.{HasNoMarks, raw_insert, build-insert}

abbrev users : InsertBuilder ℕ
users = record {
  query_builder = record { allowed_columns = codes "id" ∷ codes "age" ∷ [] };
  table = codes "users";
  columns = codes "id" ∷ codes "age" ∷ [];
  values = (1 ∷ 20 ∷ []) ∷ (2 ∷ 30 ∷ []) ∷ [];
  returning = star ∷ [];
  on_conflict = some (record { columns = codes "id" ∷ []; do_nothing = true; constraint = [] });
}

abbrev users_query : Query ℕ
users_query = (
  codes
      "INSERT INTO users (id, age) VALUES ($1, $2), ($3, $4) ON CONFLICT (id) DO NOTHING RETURNING *",
  1 ∷ 20 ∷ 2 ∷ 30 ∷ [],
)

build-users : build users ≡ ok users_query
unfolding build validate_insert validate_insert_columns validate_insert_values
    validate_returning_columns validate_on_conflict validate_column_name validate_table_name
    contains column_name_matches text_eq build_parts build_values_clause build_on_conflict_clause
    insert_front insert_tail returning_clause join tail_of_join decimal
build-users = refl

users-HasNoMarks : HasNoMarks users
users-HasNoMarks = record {
  columns = omega arith;
  returning = omega arith;
  on_conflict = omega arith;
}

users-IsPlain : IsPlain false (raw_insert users)
unfolding raw_insert raw_values raw_row insert_front insert_tail build_on_conflict_clause
    returning_clause join tail_of_join text_eq
users-IsPlain = ground arith

build-insert_example :
    (users_query.0 ≡ (replace_placeholders (raw_insert users) 1).0)
    × (users_query.1 ≡ all_values users.values)
    × (length users_query.1 ≡ length users.values * length users.columns)
build-insert_example = build-insert users build-users users-HasNoMarks

users-listed : users.query_builder.allowed_columns ≢ []
users-listed e = cc
