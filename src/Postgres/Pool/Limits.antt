-- ===== src/Postgres/Pool/Limits.antt =====
-- postgres/pool.go: which limits a pool can have.
use txova_go_db.Prelude.{
  ◌-◌, ◌^◌, ◌≡◌, ◌≢◌, ◌↔◌, refl, sym, ◌∙◌, ap, List, [], ◌∷◌, Option, none, some, Result, ok, err,
  length, arith, subst, if◌then◌else◌,
}
use txova_go_db.Prelude.Int.{ℤ, pos, ◌≤ℤ◌, ltb_ℤ}
use txova_go_db.Text.{Text}
use txova_go_db.Postgres.Errors.{Error}
use txova_go_db.Postgres.Pool.{
  PoolConfig, PoolOption, default_pool_config, apply_options, clamp, from_database_config, validate,
  DriverConfig, driver_config, Pool, connected, parsed_config, validated, new_pool_from_config,
  new_pool,
}

-- A connection string, and limits in order.
abbrev pub IsValid : PoolConfig → Type 0
IsValid c =
    (c.conn_string ≢ [])
    × (pos 1 ≤ℤ c.max_conns)
    × (pos 0 ≤ℤ c.min_conns)
    × (c.min_conns ≤ℤ c.max_conns)

empty_iff : (s : Text) → (length s ≡ 0) ↔ (s ≡ [])
empty_iff [] = (λ e. refl, λ e. refl)
empty_iff (c ∷ s) = (λ e. absurd (omega (arith, e)), λ e. cc)

pub validate_iff : (c : PoolConfig) → (validate c ≡ none) ↔ IsValid c
unfolding validate
validate_iff c = ground (arith, empty_iff c.conn_string)

clamp-bounds : (n : ℤ) → (pos 1 ≤ℤ clamp n) × (clamp n ≤ℤ pos (2 ^ 31 - 1))
unfolding clamp
clamp-bounds n = ground arith

clamp-min_conns : (n : ℤ) → (pos 5 ≤ℤ clamp n) ↔ (pos 5 ≤ℤ n)
unfolding clamp
clamp-min_conns n = ground arith

-- The configuration that FromDatabaseConfig makes without options has a number of connections
-- between 1 and 2^31 - 1, and passes Validate exactly if the connection string is not empty and
-- MaxConnections is at least 5, the default of MinConns.
pub from_database_config-validate :
    (dsn : Text) (max_connections : ℤ)
    → (pos 1 ≤ℤ (from_database_config dsn max_connections []).max_conns)
      × ((from_database_config dsn max_connections []).max_conns ≤ℤ pos (2 ^ 31 - 1))
      × ((validate (from_database_config dsn max_connections []) ≡ none)
          ↔ ((dsn ≢ []) × (pos 5 ≤ℤ max_connections)))
unfolding from_database_config
from_database_config-validate dsn n =
    let (low, high) = clamp-bounds n in
    let enough = clamp-min_conns n in
    let valid = validate_iff (from_database_config dsn n []) in
    (
      low,
      high,
      (
        λ e. let (filled, _, _, limit) = valid.0 e in (filled, enough.0 limit),
        λ (filled, limit). valid.1 (filled, low, omega arith, enough.1 limit),
      ),
    )

-- The driver's configuration has what the pool's says.
abbrev pub HasLimits : PoolConfig → DriverConfig → DriverConfig → Type 0
HasLimits c parsed driver =
    (driver.max_conns ≡ c.max_conns)
    × (driver.min_conns ≡ c.min_conns)
    × (driver.max_conn_lifetime ≡ c.max_conn_lifetime)
    × (driver.max_conn_idle_time ≡ c.max_conn_idle_time)
    × (driver.health_check_period ≡ c.health_check_period)
    × (driver.connect_timeout
        ≡ (if ltb_ℤ (pos 0) c.connect_timeout then c.connect_timeout else parsed.connect_timeout))

driver_config-HasLimits :
    (c : PoolConfig) (parsed : DriverConfig) → HasLimits c parsed (driver_config c parsed)
unfolding driver_config
driver_config-HasLimits c parsed = (refl, refl, refl, refl, refl, refl)

module _ {P : Type 0} (parse_config : Text → Result Error DriverConfig)
    (new_with_config : DriverConfig → Result Error P) where
  connected-ok :
      (c : PoolConfig) (answer : Result Error P) {p : Pool P}
      → connected parse_config new_with_config c answer ≡ ok p
      → (p.config ≡ c) × (answer ≡ ok p.pool)
  connected-ok c (ok pool) {p} h =
      let made : record { pool = pool; config = c } ≡ p = cc in
      (sym (ap (λ (x : Pool P). x.config) made), ap (λ (x : Pool P). ok x.pool) made)
  connected-ok c (err e) h = cc

  parsed_config-ok :
      (c : PoolConfig) (answer : Result Error DriverConfig) {p : Pool P}
      → parsed_config parse_config new_with_config c answer ≡ ok p
      → (p.config ≡ c)
        × ((parsed : DriverConfig) × (answer ≡ ok parsed)
            × (new_with_config (driver_config c parsed) ≡ ok p.pool))
  parsed_config-ok c (err e) h = cc
  parsed_config-ok c (ok parsed) h =
      let (config, made) = connected-ok c (new_with_config (driver_config c parsed)) h in
      (config, (parsed, refl, made))

  validated-ok :
      (c : PoolConfig) (checked : Option Error) {p : Pool P}
      → validated parse_config new_with_config c checked ≡ ok p
      → (checked ≡ none)
        × (parsed_config parse_config new_with_config c (parse_config c.conn_string) ≡ ok p)
  validated-ok c (some e) h = cc
  validated-ok c none h = (refl, h)

  -- A pool that NewPool returns has the configuration of the options, which is valid, and was made
  -- by the driver from a configuration with the limits and the times of that configuration; the
  -- time to connect, if it is not positive, is what the driver parsed from the connection string.
  pub new_pool-IsValid :
      (opts : List PoolOption) {p : Pool P}
      → new_pool parse_config new_with_config opts ≡ ok p
      → (p.config ≡ apply_options opts default_pool_config)
        × IsValid p.config
        × ((parsed : DriverConfig) × (driver : DriverConfig) × (parse_config p.config.conn_string
              ≡ ok parsed)
            × HasLimits p.config parsed driver
            × (new_with_config driver ≡ ok p.pool))
  unfolding new_pool new_pool_from_config
  new_pool-IsValid opts h =
      let c = apply_options opts default_pool_config in
      let (passed, made) = validated-ok c (validate c) h in
      let (config, (parsed, from_dsn, pooled)) =
        parsed_config-ok c (parse_config c.conn_string) made in
      let same = sym config in
      (
        config,
        subst IsValid same ((validate_iff c).0 passed),
        (
          parsed,
          driver_config c parsed,
          ap (λ (x : PoolConfig). parse_config x.conn_string) config ∙ from_dsn,
          subst (λ x. HasLimits x parsed (driver_config c parsed)) same
              (driver_config-HasLimits c parsed),
          pooled,
        ),
      )
