-- ===== src/Postgres/QueryBuilder.antt =====
-- `QueryBuilder` of postgres/query.go, its validation, and what the four builders share.
pub mod Allowlist
pub mod Plain
mod Tests
use txova_go_db.Prelude.{
  ℕ, ◌+◌, ◌++◌, Bool, true, false, ◌||◌, List, [], ◌∷◌, Option, none, some, length, replicate, ltb,
  if◌then◌else◌, not,
}
use txova_go_db.Text.{Text, codes, text_eq, join}
use txova_go_db.Postgres.Identifier.{column_name_matches}
use txova_go_db.Postgres.Placeholders.{WhereClause}

-- The errors that the builders format.
pub data BuildError : Type 0 where
  empty_column empty_table no_columns no_values no_sets unrestricted_delete : BuildError
  invalid_column not_in_allowlist invalid_table : Text → BuildError
  invalid_group_by invalid_order_by invalid_returning : Text → BuildError
  invalid_conflict_constraint invalid_conflict_column : Text → BuildError
  row_length : ℕ → ℕ → ℕ → BuildError

-- What `Build` returns besides an error: the SQL and its arguments.
abbrev pub Query : Type 0 → Type 0
Query A = Text × List A

pub data Panicking (A : Type 0) : Type 0 where
  returned : A → Panicking A
  panicked : BuildError → Panicking A

pub record QueryBuilder : Type 0 where
  pub allowed_columns : List Text

-- `_, ok := allowedColumns[column]`
unfoldable pub contains : List Text → Text → Bool
contains [] c = false
contains (d ∷ cs) c = text_eq d c || contains cs c

-- `allowedColumns[col] = struct{}{}` for each column.
insert_columns : List Text → List Text → List Text
insert_columns set [] = set
insert_columns set (col ∷ cols) = insert_columns (if contains set col then set else col ∷ set) cols

unfoldable pub new_query_builder : List Text → QueryBuilder
unfolding insert_columns contains text_eq
new_query_builder cols = record { allowed_columns = insert_columns [] cols }

unfoldable pub validate_column_name : QueryBuilder → Text → Option BuildError
validate_column_name qb column =
    if text_eq column []
    then some empty_column
    else if ltb 0 (length qb.allowed_columns)
    then (if not (column_name_matches column)
        then some (invalid_column column)
        else if not (contains qb.allowed_columns column)
        then some (not_in_allowlist column)
        else none)
    else none

unfoldable pub validate_table_name : Text → Option BuildError
validate_table_name table =
    if text_eq table []
    then some empty_table
    else if not (column_name_matches table)
    then some (invalid_table table)
    else none

-- `WHERE column IN (…)`, with the word or words between: one placeholder for each value.
unfoldable pub in_condition : Text → Text → ℕ → Text
in_condition column op n =
    column ++ (op ++ (codes " (" ++ (join (replicate n (codes "?")) (codes ", ") ++ codes ")")))

-- A condition, added with AND or with OR.
abbrev pub and_clause : {A : Type 0} → Text → List A → WhereClause A
and_clause condition args = record { condition = condition; args = args; is_or = false }

abbrev pub or_clause : {A : Type 0} → Text → List A → WhereClause A
or_clause condition args = record { condition = condition; args = args; is_or = true }

abbrev pub star : Text
star = codes "*"

-- The error of `fmt.Errorf` in place of the one that was found.
abbrev pub replaced : Option BuildError → BuildError → Option BuildError
replaced none e = none
replaced (some _) e = some e

-- `RETURNING …`, or nothing.
unfoldable pub returning_clause : List Text → Text
returning_clause returning =
    if ltb 0 (length returning) then codes " RETURNING " ++ join returning (codes ", ") else []
