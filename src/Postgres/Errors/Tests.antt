-- ===== src/Postgres/Errors/Tests.antt =====
-- The theorems on errors at concrete errors.
use txova_go_db.Prelude.{◌≡◌, refl, [], some}
use txova_go_db.Text.{codes, text_eq}
use txova_go_db.Postgres.Errors.{Error, PgError, as_pg_error, from_pg_error}
use txova_go_db.Postgres.Errors.Kinds.{
  is_duplicate, is_foreign_key, is_serialization, is_deadlock, is_timeout,
  is_duplicate-from_pg_error,
}

abbrev deadlock : PgError
deadlock = record {
  code = codes "40P01";
  message = codes "deadlock detected";
  detail = [];
  hint = [];
  table_name = [];
  column_name = [];
  constraint_name = [];
}

abbrev query_failed : Error
query_failed = Error.other_cause (codes "query") (Error.pg deadlock)

found : as_pg_error query_failed ≡ some deadlock
unfolding as_pg_error
found = refl

is_duplicate-from_pg_error_example :
    (is_duplicate (from_pg_error query_failed) ≡ text_eq deadlock.code (codes "23505"))
    × (is_foreign_key (from_pg_error query_failed) ≡ text_eq deadlock.code (codes "23503"))
    × (is_serialization (from_pg_error query_failed) ≡ text_eq deadlock.code (codes "40001"))
    × (is_deadlock (from_pg_error query_failed) ≡ text_eq deadlock.code (codes "40P01"))
    × (is_timeout (from_pg_error query_failed) ≡ text_eq deadlock.code (codes "57014"))
is_duplicate-from_pg_error_example = is_duplicate-from_pg_error query_failed deadlock found
