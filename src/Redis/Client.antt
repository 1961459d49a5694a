-- ===== src/Redis/Client.antt =====
-- redis/client.go: the configuration of the client, and which client of go-redis is made of it. The
-- logger is left out.
pub mod Made
mod Tests
use txova_go_db.Prelude.{
  ℕ, Bool, true, false, List, [], ◌∷◌, Option, none, some, Result, ok, err, length, ◌==◌, ◌&&◌,
  ◌then_check◌, if◌then◌else◌,
}
use txova_go_db.Prelude.Int.{ℤ, pos, leb_ℤ}
use txova_go_db.Text.{Text, codes}
use txova_go_db.Redis.Errors.{Error, new_error, from_redis_error, code_internal}

-- `Mode`, an integer with three names.
pub data Mode : Type 0 where
  standalone cluster sentinel : Mode
  unnamed : ℤ → Mode

-- `String`
abbrev mode_text : Mode → Text
mode_text standalone = codes "standalone"
mode_text cluster = codes "cluster"
mode_text sentinel = codes "sentinel"
mode_text (unnamed n) = codes "unknown"

-- The fields that every client is given as they are; durations are nanoseconds.
pub record Limits : Type 0 where
  pub pool_size : ℤ
  pub min_idle_conns : ℤ
  pub conn_max_lifetime : ℤ
  pub conn_max_idle_time : ℤ
  pub dial_timeout : ℤ
  pub read_timeout : ℤ
  pub write_timeout : ℤ
  pub pool_timeout : ℤ

pub record Config : Type 0 where
  pub addresses : List Text
  pub password : Text
  pub db : ℤ
  pub limits : Limits
  pub mode : Mode
  pub master_name : Text
  pub tls_enabled : Bool

abbrev pub default_limits : Limits
default_limits = record {
  pool_size = pos 10;
  min_idle_conns = pos 2;
  conn_max_lifetime = pos 1800000000000;
  conn_max_idle_time = pos 600000000000;
  dial_timeout = pos 5000000000;
  read_timeout = pos 3000000000;
  write_timeout = pos 3000000000;
  pool_timeout = pos 4000000000;
}

abbrev pub default_config : Config
default_config = record {
  addresses = codes "localhost:6379" ∷ [];
  password = [];
  db = pos 0;
  limits = default_limits;
  mode = standalone;
  master_name = [];
  tls_enabled = false;
}

pub data ConfigOption : Type 0 where
  with_address with_password with_master_name : Text → ConfigOption
  with_addresses : List Text → ConfigOption
  with_db with_pool_size with_min_idle_conns with_conn_max_lifetime : ℤ → ConfigOption
  with_conn_max_idle_time with_dial_timeout with_read_timeout with_write_timeout : ℤ → ConfigOption
  with_pool_timeout : ℤ → ConfigOption
  with_mode : Mode → ConfigOption
  with_tls : Bool → ConfigOption

abbrev apply_option : ConfigOption → Config → Config
apply_option (with_address addr) c = record c { addresses = addr ∷ [] }
apply_option (with_password password) c = record c { password = password }
apply_option (with_master_name name) c = record c { master_name = name }
apply_option (with_addresses addrs) c = record c { addresses = addrs }
apply_option (with_db db) c = record c { db = db }
apply_option (with_pool_size n) c = record c { limits = record c.limits { pool_size = n } }
apply_option (with_min_idle_conns n) c = record c {
  limits = record c.limits { min_idle_conns = n };
}
apply_option (with_conn_max_lifetime d) c = record c {
  limits = record c.limits { conn_max_lifetime = d };
}
apply_option (with_conn_max_idle_time d) c = record c {
  limits = record c.limits { conn_max_idle_time = d };
}
apply_option (with_dial_timeout d) c = record c { limits = record c.limits { dial_timeout = d } }
apply_option (with_read_timeout d) c = record c { limits = record c.limits { read_timeout = d } }
apply_option (with_write_timeout d) c = record c { limits = record c.limits { write_timeout = d } }
apply_option (with_pool_timeout d) c = record c { limits = record c.limits { pool_timeout = d } }
apply_option (with_mode mode) c = record c { mode = mode }
apply_option (with_tls enabled) c = record c { tls_enabled = enabled }

abbrev apply_options : List ConfigOption → Config → Config
apply_options [] c = c
apply_options (opt ∷ opts) c = apply_options opts (apply_option opt c)

abbrev pub is_sentinel : Mode → Bool
is_sentinel sentinel = true
is_sentinel _ = false

pub validate : Config → Option Error
validate c =
    (if length c.addresses == 0
      then some (new_error code_internal (codes "at least one Redis address is required"))
      else none)
    then_check (if is_sentinel c.mode && length c.master_name == 0
        then some (new_error code_internal (codes "master name is required for sentinel mode"))
        else none)
    then_check (if leb_ℤ c.limits.pool_size (pos 0)
        then some (new_error code_internal (codes "pool size must be positive"))
        else none)

-- The options of `NewClusterClient`, `NewFailoverClient` and `NewClient`; those that the code leaves
-- out, as TLSConfig, have no field.
pub data Options : Type 0 where
  cluster_options : (addrs : List Text) (password : Text) (limits : Limits) → Options
  failover_options :
      (master_name : Text) (sentinel_addrs : List Text) (password : Text) (db : ℤ) (limits : Limits)
      (sentinel_password : Text)
      → Options
  standalone_options : (addr : Text) (password : Text) (db : ℤ) (limits : Limits) → Options

-- `localhost:6379`, or the first address.
abbrev pub first_address : List Text → Text
first_address [] = codes "localhost:6379"
first_address (addr ∷ addrs) = addr

pub options_of : Mode → Config → Options
options_of cluster c = cluster_options c.addresses c.password c.limits
options_of sentinel c =
    failover_options c.master_name c.addresses c.password c.db c.limits c.password
options_of standalone c = standalone_options (first_address c.addresses) c.password c.db c.limits
options_of (unnamed n) c = standalone_options (first_address c.addresses) c.password c.db c.limits

-- `Client`, with the options that its client of go-redis was made of.
pub record Client : Type 0 where
  pub config : Config
  pub options : Options

pub client_of : Config → Option Error → Result Error Client
client_of c (some e) = err e
client_of c none = ok (record { config = c; options = options_of c.mode c })

pub new_with_config : Config → Result Error Client
unfolding client_of
new_with_config c = client_of c (validate c)

-- `New`
pub new : List ConfigOption → Result Error Client
unfolding new_with_config
new opts = new_with_config (apply_options opts default_config)

-- The core configuration: `Address()`, Password, DB and PoolSize.
pub record RedisConfig : Type 0 where
  pub address : Text
  pub password : Text
  pub db : ℤ
  pub pool_size : ℤ

pub new_from_core_config : RedisConfig → Result Error Client
unfolding new_with_config
new_from_core_config c =
    let pool_size = if leb_ℤ c.pool_size (pos 0) then pos 10 else c.pool_size in
    new_with_config (record {
      addresses = c.address ∷ [];
      password = c.password;
      db = c.db;
      limits = record default_limits { pool_size = pool_size };
      mode = standalone;
      master_name = [];
      tls_enabled = false;
    })

-- `Ping` by the answer of the server, and Check and Init, which call it; `Close`.
abbrev ping : Option Error → Option Error
ping none = none
ping (some e) = some (from_redis_error e)

abbrev check : Option Error → Option Error
check answer = ping answer

abbrev init : Option Error → Option Error
init answer = ping answer

abbrev close : Option Error → Option Error
close none = none
close (some e) = some (from_redis_error e)
