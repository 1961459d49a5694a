-- ===== src/Postgres/Migrate.antt =====
-- postgres/migrate.go: `Migrator` over golang-migrate, which is not in the repository: its calls are
-- functions on the state of the database and of the migrations. The logger is left out.
pub mod Answers
mod Tests
use txova_go_db.Prelude.{
  ℕ, zero, suc, Bool, true, false, List, [], ◌∷◌, Option, none, some, Result, ok, err,
  if◌then◌else◌, ◌++◌,
}
use txova_go_db.Prelude.Int.{ℤ, pos, negsuc}
use txova_go_db.Text.{Text, codes}
use txova_go_db.Text.Decimal.{decimal_ℤ}

-- An error that wraps a cause, `%w`: `migrate.ErrNoChange`, `migrate.ErrNilVersion` or another.
pub data Error : Type 0 where
  no_change nil_version : Error
  other : Text → Error
  wrapped : Text → Error → Error

-- `errors.Is(err, migrate.ErrNoChange)`
pub is_no_change : Error → Bool
is_no_change no_change = true
is_no_change (wrapped message cause) = is_no_change cause
is_no_change _ = false

-- `errors.Is(err, migrate.ErrNilVersion)`
pub is_nil_version : Error → Bool
is_nil_version nil_version = true
is_nil_version (wrapped message cause) = is_nil_version cause
is_nil_version _ = false

pub record MigratorConfig : Type 0 where
  pub table_name : Text
  pub lock_timeout : ℤ
  pub migrations_path : Text

abbrev default_migrator_config : MigratorConfig
default_migrator_config = record {
  table_name = codes "schema_migrations";
  lock_timeout = pos 15000000000;
  migrations_path = codes ".";
}

pub data MigratorOption : Type 0 where
  with_migrations_table : Text → MigratorOption
  with_lock_timeout : ℤ → MigratorOption
  with_migrations_path : Text → MigratorOption

abbrev apply_option : MigratorOption → MigratorConfig → MigratorConfig
apply_option (with_migrations_table name) c = record c { table_name = name }
apply_option (with_lock_timeout timeout) c = record c { lock_timeout = timeout }
apply_option (with_migrations_path path) c = record c { migrations_path = path }

abbrev apply_options : List MigratorOption → MigratorConfig → MigratorConfig
apply_options [] c = c
apply_options (opt ∷ opts) c = apply_options opts (apply_option opt c)

-- The constructors that NewMigrator calls: `iofs.New`, `pgx.WithInstance`, `migrate.NewWithInstance`.
module _ {Source Driver Migrate : Type 0} (iofs_new : Text → Result Error Source)
    (with_instance : Text → Result Error Driver)
    (new_with_instance : Source → Driver → Result Error Migrate) where
  abbrev with_message : {A : Type 0} → Text → Result Error A → Result Error A
  with_message message (ok a) = ok a
  with_message message (err e) = err (wrapped message e)

  abbrev with_drivers : Source → Result Error Driver → Result Error Migrate
  with_drivers source (err e) = err (wrapped (codes "creating database driver") e)
  with_drivers source (ok driver) =
      with_message (codes "creating migrate instance") (new_with_instance source driver)

  abbrev with_source : MigratorConfig → Result Error Source → Result Error Migrate
  with_source c (err e) = err (wrapped (codes "creating migration source") e)
  with_source c (ok source) = with_drivers source (with_instance c.table_name)

  -- Whether there are a pool and a file system, and the options.
  abbrev new_migrator : Bool → Bool → List MigratorOption → Result Error Migrate
  new_migrator false migrations opts = err (other (codes "pool cannot be nil"))
  new_migrator true false opts = err (other (codes "migrations filesystem cannot be nil"))
  new_migrator true true opts =
      let c = apply_options opts default_migrator_config in
      with_source c (iofs_new c.migrations_path)

-- The calls of golang-migrate; Close returns the errors of the source and of the database.
pub record Library : Type 1 where
  pub Db : Type 0
  pub up : Db → Option Error × Db
  pub down : Db → Option Error × Db
  pub steps : ℤ → Db → Option Error × Db
  pub version : Db → Result Error (ℕ × Bool)
  pub force : ℤ → Db → Option Error × Db
  pub close : Db → Option Error × Option Error

-- The error of Up, Down and Steps: none if there was nothing to do.
pub run_error : Text → Option Error → Option Error
run_error message none = none
run_error message (some e) = if is_no_change e then none else some (wrapped message e)

pub wrapped_error : Text → Option Error → Option Error
wrapped_error message none = none
wrapped_error message (some e) = some (wrapped message e)

pub version_answer : Result Error (ℕ × Bool) → Result Error (ℕ × Bool)
version_answer (ok answer) = ok answer
version_answer (err e) =
    if is_nil_version e then ok (0, false) else err (wrapped (codes "getting migration version") e)

pub close_answer : Option Error × Option Error → Option Error
close_answer (some e, db_error) = some (wrapped (codes "closing source driver") e)
close_answer (none, some e) = some (wrapped (codes "closing database driver") e)
close_answer (none, none) = none

module _ (library : Library) where
  open library use {Db}

  pub up : Db → Option Error × Db
  unfolding run_error
  up s = let (e, s') = library.up s in (run_error (codes "running up migrations") e, s')

  pub down : Db → Option Error × Db
  unfolding run_error
  down s = let (e, s') = library.down s in (run_error (codes "running down migrations") e, s')

  pub run_steps : ℤ → Db → Option Error × Db
  unfolding run_error
  run_steps n s =
      let (e, s') = library.steps n s in
      (run_error (codes "applying " ++ (decimal_ℤ n ++ codes " migration steps")) e, s')

  unfoldable steps : ℤ → Db → Option Error × Db
  unfolding run_steps
  steps (pos zero) s = (none, s)
  steps (pos (suc n)) s = run_steps (pos (suc n)) s
  steps (negsuc n) s = run_steps (negsuc n) s

  pub version : Db → Result Error (ℕ × Bool)
  unfolding version_answer
  version s = version_answer (library.version s)

  pub force : ℤ → Db → Option Error × Db
  unfolding wrapped_error
  force n s =
      let (e, s') = library.force n s in
      (wrapped_error (codes "forcing migration version " ++ decimal_ℤ n) e, s')

  -- A migrator without a `migrate.Migrate` has nothing to close.
  unfoldable close : Bool → Db → Option Error
  unfolding close_answer
  close false s = none
  close true s = close_answer (library.close s)
