-- ===== src/Postgres/Tx/Options.antt =====
-- postgres/txmanager.go: the configuration of a manager, and the transaction of a context.
use txova_go_db.Prelude.{ℕ, List, [], ◌∷◌, Option, none, some}
use txova_go_db.Prelude.Int.{ℤ, pos}
use txova_go_db.Postgres.Tx.{Environment, Outcome, History, with_tx_options}

-- The logger is left out; delays are nanoseconds.
pub record TxManagerConfig : Type 0 where
  pub max_retries : ℤ
  pub retry_base_delay : ℤ
  pub retry_max_delay : ℤ

abbrev default_tx_manager_config : TxManagerConfig
default_tx_manager_config = record {
  max_retries = pos 3;
  retry_base_delay = pos 50000000;
  retry_max_delay = pos 2000000000;
}

pub data TxManagerOption : Type 0 where
  with_max_retries with_retry_base_delay with_retry_max_delay : ℤ → TxManagerOption

abbrev apply_option : TxManagerOption → TxManagerConfig → TxManagerConfig
apply_option (with_max_retries n) c = record c { max_retries = n }
apply_option (with_retry_base_delay d) c = record c { retry_base_delay = d }
apply_option (with_retry_max_delay d) c = record c { retry_max_delay = d }

abbrev apply_options : List TxManagerOption → TxManagerConfig → TxManagerConfig
apply_options [] c = c
apply_options (opt ∷ opts) c = apply_options opts (apply_option opt c)

-- `NewTxManager`, without the pool.
abbrev new_tx_manager : List TxManagerOption → TxManagerConfig
new_tx_manager opts = apply_options opts default_tx_manager_config

-- A context as far as transactions go: those that were stored in it, the last one first.
abbrev Context : Type 0
Context = List ℕ

-- `ContextWithTx`
abbrev context_with_tx : Context → ℕ → Context
context_with_tx ctx tx = tx ∷ ctx

-- `TxFromContext`
abbrev tx_from_context : Context → Option ℕ
tx_from_context [] = none
tx_from_context (tx ∷ ctx) = some tx

-- `WithTxOptions` with a context; `opts` are for the driver only, and WithTx passes empty ones.
unfoldable with_tx : Environment → TxManagerConfig → Context → History → Outcome × History
with_tx env c ctx h = with_tx_options env c.max_retries (tx_from_context ctx) h
