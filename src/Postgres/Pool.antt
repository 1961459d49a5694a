-- ===== src/Postgres/Pool.antt =====
-- postgres/pool.go: the configuration of a pool and its creation, and the calls of pool.go, conn.go
-- and tx.go that wrap an error of the driver. The logger is left out.
pub mod Limits
mod Tests
use txova_go_db.Prelude.{
  ℕ, List, [], ◌∷◌, Option, none, some, Result, ok, err, ◌then_check◌, ◌-◌, ◌^◌, if◌then◌else◌,
  ◌++◌, length, ◌==◌,
}
use txova_go_db.Prelude.Int.{ℤ, pos, negsuc, ltb_ℤ}
use txova_go_db.Text.{Text, codes}
use txova_go_db.Text.Decimal.{decimal_ℤ}
use txova_go_db.Postgres.Errors.{Error, wrap, code_connection}
use Error.{other}

-- Durations are nanoseconds; MaxConns and MinConns are of type `int32`.
pub record PoolConfig : Type 0 where
  pub conn_string : Text
  pub max_conns : ℤ
  pub min_conns : ℤ
  pub max_conn_lifetime : ℤ
  pub max_conn_idle_time : ℤ
  pub health_check_period : ℤ
  pub connect_timeout : ℤ
  pub slow_query_threshold : ℤ

abbrev pub default_pool_config : PoolConfig
default_pool_config = record {
  conn_string = [];
  max_conns = pos 25;
  min_conns = pos 5;
  max_conn_lifetime = pos 3600000000000;
  max_conn_idle_time = pos 1800000000000;
  health_check_period = pos 60000000000;
  connect_timeout = pos 5000000000;
  slow_query_threshold = pos 1000000000;
}

-- `Option`
pub data PoolOption : Type 0 where
  with_conn_string : Text → PoolOption
  with_max_conns with_min_conns with_max_conn_lifetime with_max_conn_idle_time : ℤ → PoolOption
  with_health_check_period with_connect_timeout with_slow_query_threshold : ℤ → PoolOption

abbrev pub apply_option : PoolOption → PoolConfig → PoolConfig
apply_option (with_conn_string s) c = record c { conn_string = s }
apply_option (with_max_conns n) c = record c { max_conns = n }
apply_option (with_min_conns n) c = record c { min_conns = n }
apply_option (with_max_conn_lifetime d) c = record c { max_conn_lifetime = d }
apply_option (with_max_conn_idle_time d) c = record c { max_conn_idle_time = d }
apply_option (with_health_check_period d) c = record c { health_check_period = d }
apply_option (with_connect_timeout d) c = record c { connect_timeout = d }
apply_option (with_slow_query_threshold d) c = record c { slow_query_threshold = d }

abbrev pub apply_options : List PoolOption → PoolConfig → PoolConfig
apply_options [] c = c
apply_options (opt ∷ opts) c = apply_options opts (apply_option opt c)

-- `maxConns` within the bounds of `int32`, and at least 1.
pub clamp : ℤ → ℤ
clamp n =
    let capped = if ltb_ℤ (pos (2 ^ 31 - 1)) n then pos (2 ^ 31 - 1) else n in
    if ltb_ℤ capped (pos 1) then pos 1 else capped

-- The arguments are `DSN()` and the field MaxConnections of the core configuration.
pub from_database_config : Text → ℤ → List PoolOption → PoolConfig
unfolding clamp
from_database_config dsn max_connections opts =
    apply_options opts
      (record default_pool_config { conn_string = dsn; max_conns = clamp max_connections })

pub validate : PoolConfig → Option Error
validate c =
    (if length c.conn_string == 0
      then some (other (codes "connection string is required"))
      else none)
    then_check (if ltb_ℤ c.max_conns (pos 1)
        then some (other (codes "max connections must be at least 1"))
        else none)
    then_check (if ltb_ℤ c.min_conns (pos 0)
        then some (other (codes "min connections cannot be negative"))
        else none)
    then_check (if ltb_ℤ c.max_conns c.min_conns
        then some (
            other (
              codes "min connections ("
              ++ (decimal_ℤ c.min_conns
                  ++ (codes ") cannot exceed max connections ("
                      ++ (decimal_ℤ c.max_conns ++ codes ")")))))
        else none)

-- `pgxpool.Config`, as far as the code sets it.
pub record DriverConfig : Type 0 where
  pub max_conns : ℤ
  pub min_conns : ℤ
  pub max_conn_lifetime : ℤ
  pub max_conn_idle_time : ℤ
  pub health_check_period : ℤ
  pub connect_timeout : ℤ

abbrev pub connection_result {ℓ} : {A : Type ℓ} → Text → Result Error A → Result Error A
connection_result message (ok a) = ok a
connection_result message (err e) = err (wrap code_connection message (some e))

abbrev pub connection_error : Text → Option Error → Option Error
connection_error message none = none
connection_error message (some e) = some (wrap code_connection message (some e))

-- `pgxPool`, over the type of the driver's pools.
pub record Pool (P : Type 0) : Type 0 where
  pub pool : P
  pub config : PoolConfig

pub driver_config : PoolConfig → DriverConfig → DriverConfig
driver_config c parsed = record {
  max_conns = c.max_conns;
  min_conns = c.min_conns;
  max_conn_lifetime = c.max_conn_lifetime;
  max_conn_idle_time = c.max_conn_idle_time;
  health_check_period = c.health_check_period;
  connect_timeout =
      if ltb_ℤ (pos 0) c.connect_timeout then c.connect_timeout else parsed.connect_timeout;
}

-- `pgxpool.ParseConfig` and `pgxpool.NewWithConfig`.
module _ {P : Type 0} (parse_config : Text → Result Error DriverConfig)
    (new_with_config : DriverConfig → Result Error P) where
  abbrev connected : PoolConfig → Result Error P → Result Error (Pool P)
  connected c (ok pool) = ok (record { pool = pool; config = c })
  connected c (err e) =
      err (wrap code_connection (codes "failed to create connection pool") (some e))

  abbrev parsed_config : PoolConfig → Result Error DriverConfig → Result Error (Pool P)
  parsed_config c (err e) =
      err (wrap code_connection (codes "failed to parse connection string") (some e))
  parsed_config c (ok parsed) = connected c (new_with_config (driver_config c parsed))

  abbrev validated : PoolConfig → Option Error → Result Error (Pool P)
  validated c (some e) = err (wrap code_connection (codes "invalid pool configuration") (some e))
  validated c none = parsed_config c (parse_config c.conn_string)

  pub new_pool_from_config : PoolConfig → Result Error (Pool P)
  new_pool_from_config c = validated c (validate c)

  pub new_pool : List PoolOption → Result Error (Pool P)
  unfolding new_pool_from_config
  new_pool opts = new_pool_from_config (apply_options opts default_pool_config)

-- The calls that wrap the driver's error: of a pool,
module _ {A : Type 0} where
  abbrev pool_acquire : Result Error A → Result Error A
  pool_acquire answer = connection_result (codes "failed to acquire connection") answer

  abbrev pool_begin : Result Error A → Result Error A
  pool_begin answer = connection_result (codes "failed to begin transaction") answer

  -- of a connection,
  abbrev conn_begin : Result Error A → Result Error A
  conn_begin answer = connection_result (codes "failed to begin transaction") answer

  abbrev conn_begin_tx : Result Error A → Result Error A
  conn_begin_tx answer = connection_result (codes "failed to begin transaction") answer

  -- and of a transaction.
  abbrev tx_begin : Result Error A → Result Error A
  tx_begin answer = connection_result (codes "failed to begin nested transaction") answer

abbrev pool_ping : Option Error → Option Error
pool_ping answer = connection_error (codes "ping failed") answer

abbrev conn_ping : Option Error → Option Error
conn_ping answer = connection_error (codes "ping failed") answer
