-- ===== src/Postgres/Update/Tests.antt =====
-- An update with an allowlist, run through `Build`, and the theorems on it.
use txova_go_db.Prelude.{ℕ, ◌≡◌, ◌≢◌, ◌↔◌, refl, [], ◌∷◌, ok, false, arith}
use txova_go_db.Text.{codes, text_eq, join, tail_of_join}
use txova_go_db.Text.Decimal.{decimal}
use txova_go_db.Postgres.Identifier.{column_name_matches}
use txova_go_db.Postgres.Placeholders.{replace_placeholders, build_condition_clauses}
use txova_go_db.Postgres.Placeholders.Numbering.{count_marks}
use txova_go_db.Postgres.Placeholders.Clauses.{raw_clauses, IsBalanced}
use txova_go_db.Postgres.Placeholders.Parameters.{IsPlain, parameters}
use txova_go_db.Postgres.QueryBuilder.{
  Query, and_clause, or_clause, contains, validate_column_name, validate_table_name,
  returning_clause,
}
use txova_go_db.Postgres.Update.{
  UpdateBuilder, validate_update, validate_sets, validate_returning, build_set_clause,
  build_where_clause, update_front, build_parts, build,
}
use txova_go_db.Postgres.Update.Sets.{raw_sets, raw_set, HasNoMarks}
use txova_go_db.Postgres.Update.Refinement.{raw_update, parameters-build_update}
use txova_go_db.Postgres.Update.Allowed.{IsAllowed, build_update-IsAllowed}

abbrev renamed : UpdateBuilder ℕ
renamed = record {
  query_builder = record { allowed_columns = codes "name" ∷ codes "age" ∷ [] };
  table = codes "u";
  sets =
      record { column = codes "name"; value = 4 } ∷ record { column = codes "age"; value = 5 } ∷ [];
  wheres = and_clause (codes "id = ?") (6 ∷ []) ∷ or_clause (codes "x IN (?, ?)") (7 ∷ 8 ∷ []) ∷ [];
  returning = codes "age" ∷ [];
}

abbrev renamed_query : Query ℕ
renamed_query = (
  codes "UPDATE u SET name = $1, age = $2 WHERE id = $3 OR x IN ($4, $5) RETURNING age",
  4 ∷ 5 ∷ 6 ∷ 7 ∷ 8 ∷ [],
)

build-renamed : build renamed ≡ ok renamed_query
unfolding build validate_update validate_sets validate_returning validate_column_name
    validate_table_name contains column_name_matches text_eq build_parts build_set_clause
    build_where_clause build_condition_clauses replace_placeholders update_front returning_clause
    join tail_of_join decimal
build-renamed = refl

renamed-HasNoMarks : HasNoMarks renamed
renamed-HasNoMarks = record { columns = omega arith; returning = omega arith }

renamed_IsBalanced : IsBalanced renamed.wheres
unfolding count_marks
renamed_IsBalanced = (refl, (refl, tt))

renamed-IsPlain : IsPlain false (raw_update renamed)
unfolding raw_update raw_sets raw_set raw_clauses update_front returning_clause join tail_of_join
renamed-IsPlain = ground arith

parameters-build_update_example : parameters renamed_query.0 ≡ 1 ∷ 2 ∷ 3 ∷ 4 ∷ 5 ∷ []
parameters-build_update_example =
    parameters-build_update renamed build-renamed renamed-HasNoMarks renamed_IsBalanced
      renamed-IsPlain

renamed_listed : renamed.query_builder.allowed_columns ≢ []
renamed_listed e = cc

build_update-IsAllowed_example : ((q : Query ℕ) × (build renamed ≡ ok q)) ↔ IsAllowed renamed
build_update-IsAllowed_example = build_update-IsAllowed renamed renamed_listed
