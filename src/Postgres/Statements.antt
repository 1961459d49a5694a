-- ===== src/Postgres/Statements.antt =====
-- postgres/pool.go, conn.go and tx.go: Exec, Query and QueryRow of the three wrappers, with what they
-- write to the log. The answers of the driver are arguments; an SQL text is a list of bytes.
pub mod Alike
use txova_go_db.Prelude.{
  ℕ, zero, suc, ◌++◌, Bool, ◌&&◌, List, [], ◌∷◌, Option, none, some, Result, ok, err, length, leb,
  if◌then◌else◌,
}
use txova_go_db.Prelude.Int.{ℤ, pos, ltb_ℤ, leb_ℤ}
use txova_go_db.Prelude.Int64.{quotient}
use txova_go_db.Text.{Text, codes}
use txova_go_db.Postgres.Errors.{Error, from_pg_error}

-- `sql[:n]`
abbrev pub first_bytes : ℕ → Text → Text
first_bytes zero sql = []
first_bytes (suc n) [] = []
first_bytes (suc n) (c ∷ sql) = c ∷ first_bytes n sql

pub truncate_sql : Text → Text
truncate_sql sql = if leb (length sql) 200 then sql else first_bytes 200 sql ++ codes "..."

-- A line of the log, without the text of the error: the SQL, the duration and the threshold.
pub data Line : Type 0 where
  slow_query : Text → ℤ → ℤ → Line
  query_failed : Text → ℤ → Line

abbrev pub milliseconds : ℤ → ℤ
milliseconds d = quotient d 1000000

-- The warning of a threshold that is positive and reached.
pub slow_line : ℤ → Text → ℤ → List Line
slow_line threshold sql duration =
    if ltb_ℤ (pos 0) threshold && leb_ℤ threshold duration
    then slow_query (truncate_sql sql) (milliseconds duration) (milliseconds threshold) ∷ []
    else []

pub failed_line : Text → ℤ → Line
failed_line sql duration = query_failed (truncate_sql sql) (milliseconds duration)

-- `pgxPool`, `pgxConn` and `pgxTx` as far as their statements go.
pub record PgxPool : Type 0 where
  pub slow_query_threshold : ℤ

pub record PgxConn : Type 0 where
  pub slow_query_threshold : ℤ

pub record PgxTx : Type 0 where
  pub slow_query_threshold : ℤ

module _ {Tag : Type 0} where
  pub pool_exec : PgxPool → Text → ℤ → Tag × Option Error → (Tag × Option Error) × List Line
  unfolding slow_line failed_line
  pool_exec p sql duration (tag, none) =
      ((tag, none), slow_line p.slow_query_threshold sql duration)
  pool_exec p sql duration (tag, some e) = (
    (tag, some (from_pg_error e)),
    slow_line p.slow_query_threshold sql duration ++ (failed_line sql duration ∷ []),
  )

  pub conn_exec : PgxConn → Text → ℤ → Tag × Option Error → (Tag × Option Error) × List Line
  unfolding slow_line failed_line
  conn_exec c sql duration (tag, none) =
      ((tag, none), slow_line c.slow_query_threshold sql duration)
  conn_exec c sql duration (tag, some e) = (
    (tag, some (from_pg_error e)),
    slow_line c.slow_query_threshold sql duration ++ (failed_line sql duration ∷ []),
  )

  pub tx_exec : PgxTx → Text → ℤ → Tag × Option Error → (Tag × Option Error) × List Line
  unfolding slow_line failed_line
  tx_exec t sql duration (tag, none) = ((tag, none), slow_line t.slow_query_threshold sql duration)
  tx_exec t sql duration (tag, some e) = (
    (tag, some (from_pg_error e)),
    slow_line t.slow_query_threshold sql duration ++ (failed_line sql duration ∷ []),
  )

-- A query that fails gives no rows.
module _ {Rows : Type 0} where
  pub pool_query : PgxPool → Text → ℤ → Result Error Rows → Result Error Rows × List Line
  unfolding slow_line failed_line
  pool_query p sql duration (ok rows) = (ok rows, slow_line p.slow_query_threshold sql duration)
  pool_query p sql duration (err e) = (
    err (from_pg_error e),
    slow_line p.slow_query_threshold sql duration ++ (failed_line sql duration ∷ []),
  )

  pub conn_query : PgxConn → Text → ℤ → Result Error Rows → Result Error Rows × List Line
  unfolding slow_line failed_line
  conn_query c sql duration (ok rows) = (ok rows, slow_line c.slow_query_threshold sql duration)
  conn_query c sql duration (err e) = (
    err (from_pg_error e),
    slow_line c.slow_query_threshold sql duration ++ (failed_line sql duration ∷ []),
  )

  pub tx_query : PgxTx → Text → ℤ → Result Error Rows → Result Error Rows × List Line
  unfolding slow_line failed_line
  tx_query t sql duration (ok rows) = (ok rows, slow_line t.slow_query_threshold sql duration)
  tx_query t sql duration (err e) = (
    err (from_pg_error e),
    slow_line t.slow_query_threshold sql duration ++ (failed_line sql duration ∷ []),
  )

-- A row keeps its error until it is scanned.
module _ {Row : Type 0} where
  pub pool_query_row : PgxPool → Text → ℤ → Row → Row × List Line
  unfolding slow_line
  pool_query_row p sql duration row = (row, slow_line p.slow_query_threshold sql duration)

  pub conn_query_row : PgxConn → Text → ℤ → Row → Row × List Line
  unfolding slow_line
  conn_query_row c sql duration row = (row, slow_line c.slow_query_threshold sql duration)

  pub tx_query_row : PgxTx → Text → ℤ → Row → Row × List Line
  unfolding slow_line
  tx_query_row t sql duration row = (row, slow_line t.slow_query_threshold sql duration)
