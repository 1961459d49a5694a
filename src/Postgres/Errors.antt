-- ===== src/Postgres/Errors.antt =====
-- postgres/errors.go: codes, errors with their causes, and the classification of SQLSTATE.
pub mod SqlState
pub mod Chain
pub mod Kinds
mod Tests
use txova_go_db.Prelude.{
  ℕ, Bool, true, false, ◌||◌, List, [], ◌∷◌, Option, none, some, if◌then◌else◌, not,
}
use txova_go_db.Text.{Text, codes, text_eq}

-- `Code` is a string.
abbrev pub Code : Type 0
Code = Text

abbrev pub code_not_found : Code
code_not_found = codes "DB_NOT_FOUND"

abbrev pub code_duplicate : Code
code_duplicate = codes "DB_DUPLICATE"

abbrev pub code_foreign_key : Code
code_foreign_key = codes "DB_FOREIGN_KEY"

abbrev pub code_check_violation : Code
code_check_violation = codes "DB_CHECK_VIOLATION"

abbrev pub code_connection : Code
code_connection = codes "DB_CONNECTION"

abbrev pub code_timeout : Code
code_timeout = codes "DB_TIMEOUT"

abbrev pub code_serialization : Code
code_serialization = codes "DB_SERIALIZATION"

abbrev pub code_deadlock : Code
code_deadlock = codes "DB_DEADLOCK"

abbrev pub code_invalid_input : Code
code_invalid_input = codes "DB_INVALID_INPUT"

abbrev pub code_internal : Code
code_internal = codes "DB_INTERNAL"

-- The codes of the package coreerrors that the mapping names.
pub data CoreCode : Type 0 where
  not_found conflict validation_error service_unavailable internal_error : CoreCode

-- `CoreCode` of a code: the entry of `coreCodeMapping`, or the internal error.
unfoldable pub core_code : Code → CoreCode
core_code c =
    if text_eq c code_not_found
    then not_found
    else if text_eq c code_duplicate
    then conflict
    else if text_eq c code_foreign_key
    then conflict
    else if text_eq c code_check_violation
    then validation_error
    else if text_eq c code_connection
    then service_unavailable
    else if text_eq c code_timeout
    then service_unavailable
    else if text_eq c code_serialization
    then conflict
    else if text_eq c code_deadlock
    then conflict
    else if text_eq c code_invalid_input
    then validation_error
    else internal_error

-- `pgconn.PgError`
pub record PgError : Type 0 where
  pub code : Text
  pub message : Text
  pub detail : Text
  pub hint : Text
  pub table_name : Text
  pub column_name : Text
  pub constraint_name : Text

-- The fields of `Error`, with the code and the message of the core error that it embeds.
pub record DbError : Type 0 where
  pub core : CoreCode
  pub message : Text
  pub code : Code
  pub sql_state : Text
  pub detail : Text
  pub hint : Text
  pub table_name : Text
  pub column : Text
  pub constraint : Text

-- An error and the chain of its causes: an `*Error` without or with a cause, an error of the driver,
-- `pgx.ErrNoRows`, `ctx.Err()`, and any other error without or with a cause.
pub data Error : Type 0 where
  db : DbError → Error
  db_cause : DbError → Error → Error
  pg : PgError → Error
  no_rows context_done : Error
  other : Text → Error
  other_cause : Text → Error → Error

plain_fields : Code → Text → DbError
plain_fields code message = record {
  core = core_code code;
  message = message;
  code = code;
  sql_state = [];
  detail = [];
  hint = [];
  table_name = [];
  column = [];
  constraint = [];
}

-- `New`
unfoldable pub new : Code → Text → Error
unfolding plain_fields core_code text_eq
new code message = db (plain_fields code message)

-- `Wrap`; a nil cause is no cause.
unfoldable pub wrap : Code → Text → Option Error → Error
unfolding plain_fields core_code text_eq
wrap code message none = db (plain_fields code message)
wrap code message (some cause) = db_cause (plain_fields code message) cause

-- `errors.As` with a `*Error`: the first one of the chain.
unfoldable pub as_error : Error → Option DbError
as_error (db e) = some e
as_error (db_cause e cause) = some e
as_error (other_cause m cause) = as_error cause
as_error _ = none

-- `errors.As` with a `*pgconn.PgError`.
unfoldable pub as_pg_error : Error → Option PgError
as_pg_error (pg e) = some e
as_pg_error (db_cause e cause) = as_pg_error cause
as_pg_error (other_cause m cause) = as_pg_error cause
as_pg_error _ = none

-- The switch over the class, the first two bytes.
unfoldable pub class_code : Text → Code
class_code (a ∷ b ∷ s) =
    if text_eq (a ∷ b ∷ []) (codes "08") then code_connection else code_internal
class_code s = code_internal

unfoldable pub map_sql_state : Text → Code
unfolding class_code
map_sql_state s =
    if text_eq s (codes "23505")
    then code_duplicate
    else if text_eq s (codes "23503")
    then code_foreign_key
    else if text_eq s (codes "23514")
    then code_check_violation
    else if text_eq s (codes "23502")
    then code_invalid_input
    else if text_eq s (codes "40001")
    then code_serialization
    else if text_eq s (codes "40P01")
    then code_deadlock
    else if text_eq s (codes "57014")
    then code_timeout
    else class_code s

-- The error that stands for a PostgreSQL error, if `errors.As` has found one.
unfoldable pub converted : Error → Option PgError → Error
converted err none = wrap code_internal (codes "database error") (some err)
converted err (some e) =
    let code = map_sql_state e.code in
    db_cause
      (record {
        core = core_code code;
        message = e.message;
        code = code;
        sql_state = e.code;
        detail = e.detail;
        hint = e.hint;
        table_name = e.table_name;
        column = e.column_name;
        constraint = e.constraint_name;
      })
      err

-- `FromPgError` of an error that is not nil.
unfoldable pub from_pg_error : Error → Error
unfolding converted
from_pg_error err = converted err (as_pg_error err)

unfoldable pub get_code : Error → Code
get_code err = elim (as_error err) [ some e ↦ e.code | none ↦ code_internal ]

unfoldable pub is_code : Error → Code → Bool
is_code err code = elim (as_error err) [ some e ↦ text_eq e.code code | none ↦ false ]

-- `isRetryable` of postgres/txmanager.go.
unfoldable pub is_retryable : Error → Bool
is_retryable err = elim (as_error err) [
  | some e ↦ text_eq e.code code_serialization || text_eq e.code code_deadlock
  | none ↦ false
]
