-- ===== src/Postgres/Delete/Tests.antt =====
-- A delete with a condition, run through `Build`, and the theorems on it.
use txova_go_db.Prelude.{ℕ, ◌≡◌, ◌≢◌, ◌↔◌, ◌⊎◌, refl, [], ◌∷◌, All, ok, true, false, arith}
use txova_go_db.Text.{codes, text_eq, join, tail_of_join}
use txova_go_db.Text.Decimal.{decimal}
use txova_go_db.Postgres.Identifier.{column_name_matches}
use txova_go_db.Postgres.Placeholders.{mark, replace_placeholders, build_condition_clauses}
use txova_go_db.Postgres.Placeholders.Numbering.{count_marks}
use txova_go_db.Postgres.Placeholders.Clauses.{raw_clauses, IsBalanced}
use txova_go_db.Postgres.Placeholders.Parameters.{IsPlain}
use txova_go_db.Text.{Lacks}
use txova_go_db.Postgres.Identifier.{IsName}
use txova_go_db.Postgres.QueryBuilder.{Query, and_clause, validate_table_name, returning_clause}
use txova_go_db.Postgres.Delete.{DeleteBuilder, validate_delete, build_parts, build}
use txova_go_db.Postgres.Delete.Refinement.{raw_delete, build_delete-guarded}

abbrev stale : DeleteBuilder ℕ
stale = record {
  query_builder = record { allowed_columns = [] };
  table = codes "sessions";
  wheres = and_clause (codes "age > ?") (30 ∷ []) ∷ and_clause (codes "n = ?") (2 ∷ []) ∷ [];
  returning = codes "id" ∷ [];
  allow_unrestricted = false;
}

abbrev stale_query : Query ℕ
stale_query = (codes "DELETE FROM sessions WHERE age > $1 AND n = $2 RETURNING id", 30 ∷ 2 ∷ [])

build-stale : build stale ≡ ok stale_query
unfolding build validate_delete validate_table_name column_name_matches text_eq build_parts
    build_condition_clauses replace_placeholders returning_clause join tail_of_join decimal
build-stale = refl

stale_returning : All (Lacks mark) stale.returning
stale_returning = omega arith

stale_IsBalanced : IsBalanced stale.wheres
unfolding count_marks
stale_IsBalanced = (refl, (refl, tt))

stale-IsPlain : IsPlain false (raw_delete stale)
unfolding raw_delete raw_clauses returning_clause join tail_of_join
stale-IsPlain = ground arith

build_delete-guarded_example :
    ((q : Query ℕ) × (build stale ≡ ok q))
    ↔ (IsName stale.table × ((stale.wheres ≢ []) ⊎ (stale.allow_unrestricted ≡ true)))
build_delete-guarded_example = build_delete-guarded stale
