-- ===== src/Postgres/Statements/Alike.antt =====
-- postgres/pool.go, conn.go and tx.go: the wrappers answer and log alike, and what they log is short.
use txova_go_db.Prelude.{
  ℕ, zero, suc, ◌+◌, ◌≤◌, ◌≡◌, refl, inl, inr, Bool, true, false, ◌&&◌, [], ◌∷◌, Option, none, some,
  Result, ok, err, length, length-append, leb, leb→le, Bool-cases, All, All-append, arith,
}
use txova_go_db.Prelude.Int.{ℤ, pos, ltb_ℤ, leb_ℤ}
use txova_go_db.Text.{Text, codes}
use txova_go_db.Postgres.Errors.{Error, from_pg_error}
use txova_go_db.Postgres.Statements.{
  first_bytes, truncate_sql, Line, slow_query, query_failed, slow_line, failed_line, pool_exec,
  conn_exec, tx_exec, pool_query, conn_query, tx_query, pool_query_row, conn_query_row,
  tx_query_row,
}

length-first_bytes : (n : ℕ) (s : Text) → length (first_bytes n s) ≤ n
length-first_bytes zero s = omega arith
length-first_bytes (suc n) [] = omega arith
length-first_bytes (suc n) (c ∷ s) = omega (arith, length-first_bytes n s)

pub length-truncate_sql : (sql : Text) → length (truncate_sql sql) ≤ 203
unfolding truncate_sql
length-truncate_sql sql = elim (Bool-cases (leb (length sql) 200)) [
  | inl fits ↦ rw fits (omega (arith, leb→le (length sql) 200 fits))
  | inr long ↦
      let both = length-append (first_bytes 200 sql) (codes "...") in
      rw long (omega (arith, both, length-first_bytes 200 sql))
]

-- The SQL of the line has at most 203 bytes.
abbrev pub IsShort : Line → Type 0
IsShort (slow_query sql duration threshold) = length sql ≤ 203
IsShort (query_failed sql duration) = length sql ≤ 203

-- The SQL is too slow for the threshold.
abbrev pub is_slow : ℤ → ℤ → Bool
is_slow threshold duration = ltb_ℤ (pos 0) threshold && leb_ℤ threshold duration

abbrev pub number : Bool → ℕ
number true = 1
number false = 0

slow_line-IsShort :
    (threshold : ℤ) (sql : Text) (duration : ℤ)
    → All IsShort (slow_line threshold sql duration)
      × (length (slow_line threshold sql duration) ≡ number (is_slow threshold duration))
unfolding slow_line
slow_line-IsShort threshold sql duration = elim (Bool-cases (is_slow threshold duration)) [
  | inl slow ↦ rw slow ((length-truncate_sql sql, tt), refl)
  | inr fast ↦ rw fast (tt, refl)
]

abbrev pub failures : Option Error → ℕ
failures none = 0
failures (some e) = 1

abbrev pub classified : Option Error → Option Error
classified none = none
classified (some e) = some (from_pg_error e)

-- Exec of the pool, of a connection and of a transaction with one threshold answer and log alike:
-- the tag of the driver with its error, classified; one line for a slow statement and one for a
-- failure, each with at most 203 bytes of the SQL.
pub pool_exec-alike :
    {Tag : Type 0} (threshold : ℤ) (sql : Text) (duration : ℤ) (tag : Tag) (e : Option Error)
    → (conn_exec (record { slow_query_threshold = threshold }) sql duration (tag, e)
        ≡ pool_exec (record { slow_query_threshold = threshold }) sql duration (tag, e))
      × (tx_exec (record { slow_query_threshold = threshold }) sql duration (tag, e)
          ≡ pool_exec (record { slow_query_threshold = threshold }) sql duration (tag, e))
      × ((pool_exec (record { slow_query_threshold = threshold }) sql duration (tag, e)).0
          ≡ (tag, classified e))
      × All IsShort
          (pool_exec (record { slow_query_threshold = threshold }) sql duration (tag, e)).1
      × (length (pool_exec (record { slow_query_threshold = threshold }) sql duration (tag, e)).1
          ≡ number (is_slow threshold duration) + failures e)
unfolding pool_exec conn_exec tx_exec failed_line
pool_exec-alike threshold sql duration tag none =
    let (short, slow) = slow_line-IsShort threshold sql duration in
    (refl, refl, refl, short, omega (arith, slow))
pool_exec-alike threshold sql duration tag (some e) =
    let (short, slow) = slow_line-IsShort threshold sql duration in
    let both = length-append (slow_line threshold sql duration) (failed_line sql duration ∷ []) in
    (
      refl,
      refl,
      refl,
      All-append IsShort (slow_line threshold sql duration) _ short (length-truncate_sql sql, tt),
      omega (arith, slow, both),
    )

-- Query of the three wrappers answers and logs alike: the rows, or the error, classified.
pub pool_query-alike :
    {Rows : Type 0} (threshold : ℤ) (sql : Text) (duration : ℤ) (answer : Result Error Rows)
    → (conn_query (record { slow_query_threshold = threshold }) sql duration answer
        ≡ pool_query (record { slow_query_threshold = threshold }) sql duration answer)
      × (tx_query (record { slow_query_threshold = threshold }) sql duration answer
          ≡ pool_query (record { slow_query_threshold = threshold }) sql duration answer)
unfolding pool_query conn_query tx_query
pool_query-alike threshold sql duration (ok rows) = (refl, refl)
pool_query-alike threshold sql duration (err e) = (refl, refl)

pub pool_query_row-alike :
    {Row : Type 0} (threshold : ℤ) (sql : Text) (duration : ℤ) (row : Row)
    → (conn_query_row (record { slow_query_threshold = threshold }) sql duration row
        ≡ pool_query_row (record { slow_query_threshold = threshold }) sql duration row)
      × (tx_query_row (record { slow_query_threshold = threshold }) sql duration row
          ≡ pool_query_row (record { slow_query_threshold = threshold }) sql duration row)
unfolding pool_query_row conn_query_row tx_query_row
pool_query_row-alike threshold sql duration row = (refl, refl)
