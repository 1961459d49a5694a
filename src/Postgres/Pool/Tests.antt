-- ===== src/Postgres/Pool/Tests.antt =====
-- The theorems on pools with a driver that takes every connection string, and on the statements.
use txova_go_db.Prelude.{
  ℕ, ◌+◌, ◌≡◌, ◌≢◌, refl, List, [], ◌∷◌, none, Result, ok, length, All, ◌-◌, ◌^◌, ◌↔◌,
}
use txova_go_db.Prelude.Int.{ℤ, pos, ◌≤ℤ◌}
use txova_go_db.Text.{Text, codes}
use txova_go_db.Postgres.Errors.{Error}
use txova_go_db.Postgres.Pool.{
  PoolOption, with_conn_string, with_max_conns, default_pool_config, apply_options, DriverConfig,
  driver_config, Pool, validate, new_pool_from_config, new_pool, from_database_config,
}
use txova_go_db.Postgres.Pool.Limits.{
  IsValid, HasLimits, new_pool-IsValid, from_database_config-validate,
}
use txova_go_db.Postgres.Statements.{pool_exec, conn_exec, tx_exec}
use txova_go_db.Postgres.Statements.Alike.{
  IsShort, is_slow, number, failures, classified, pool_exec-alike,
}

abbrev parsed : DriverConfig
parsed = record {
  max_conns = pos 4;
  min_conns = pos 0;
  max_conn_lifetime = pos 0;
  max_conn_idle_time = pos 0;
  health_check_period = pos 0;
  connect_timeout = pos 0;
}

-- The pool of the driver is its maximal number of connections.
abbrev parse : Text → Result Error DriverConfig
parse dsn = ok parsed

abbrev connect : DriverConfig → Result Error ℤ
connect c = ok c.max_conns

abbrev options : List PoolOption
options = with_conn_string (codes "postgres://db") ∷ with_max_conns (pos 7) ∷ []

abbrev pool : Pool ℤ
pool = record { pool = pos 7; config = apply_options options default_pool_config }

opened : new_pool parse connect options ≡ ok pool
unfolding new_pool new_pool_from_config validate driver_config
opened = refl

new_pool-IsValid_example :
    (pool.config ≡ apply_options options default_pool_config)
    × IsValid pool.config
    × ((p : DriverConfig) × (driver : DriverConfig) × (parse pool.config.conn_string ≡ ok p)
        × HasLimits pool.config p driver
        × (connect driver ≡ ok pool.pool))
new_pool-IsValid_example = new_pool-IsValid parse connect options opened

from_database_config-validate_example :
    (pos 1 ≤ℤ (from_database_config (codes "postgres://db") (pos 4) []).max_conns)
    × ((from_database_config (codes "postgres://db") (pos 4) []).max_conns ≤ℤ pos (2 ^ 31 - 1))
    × ((validate (from_database_config (codes "postgres://db") (pos 4) []) ≡ none)
        ↔ ((codes "postgres://db" ≢ []) × (pos 5 ≤ℤ pos 4)))
from_database_config-validate_example =
    from_database_config-validate (codes "postgres://db") (pos 4)

abbrev tag : ℕ
tag = 1

pool_exec-alike_example :
    (conn_exec
        (record { slow_query_threshold = pos 1000000 })
        (codes "SELECT 1")
        (pos 2000000)
        (tag, none)
      ≡ pool_exec
          (record { slow_query_threshold = pos 1000000 })
          (codes "SELECT 1")
          (pos 2000000)
          (tag, none))
    × (tx_exec
          (record { slow_query_threshold = pos 1000000 })
          (codes "SELECT 1")
          (pos 2000000)
          (tag, none)
        ≡ pool_exec
            (record { slow_query_threshold = pos 1000000 })
            (codes "SELECT 1")
            (pos 2000000)
            (tag, none))
    × ((pool_exec
          (record { slow_query_threshold = pos 1000000 })
          (codes "SELECT 1")
          (pos 2000000)
          (tag, none)).0
        ≡ (tag, classified none))
    × All IsShort
        (pool_exec
          (record { slow_query_threshold = pos 1000000 })
          (codes "SELECT 1")
          (pos 2000000)
          (tag, none)).1
    × (length
          (pool_exec
            (record { slow_query_threshold = pos 1000000 })
            (codes "SELECT 1")
            (pos 2000000)
            (tag, none)).1
        ≡ number (is_slow (pos 1000000) (pos 2000000)) + failures none)
pool_exec-alike_example = pool_exec-alike (pos 1000000) (codes "SELECT 1") (pos 2000000) tag none
