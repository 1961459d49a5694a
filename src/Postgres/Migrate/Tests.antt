-- ===== src/Postgres/Migrate/Tests.antt =====
-- A library with three migrations.
use txova_go_db.Prelude.{
  ℕ, ◌≡◌, refl, Bool, false, Option, none, some, Result, ok, err, leb, if◌then◌else◌,
}
use txova_go_db.Prelude.Int.{ℤ, pos, negsuc}
use txova_go_db.Postgres.Migrate.{
  Error, no_change, nil_version, is_no_change, Library, run_error, up,
}
use txova_go_db.Postgres.Migrate.Answers.{ForceLaws}

-- The version of the database, if there is one.
abbrev Version : Type 0
Version = Option ℕ

abbrev up_all : Version → Option Error × Version
up_all none = (none, some 3)
up_all (some n) = if leb 3 n then (some no_change, some n) else (none, some 3)

abbrev down_all : Version → Option Error × Version
down_all none = (some no_change, none)
down_all (some n) = (none, none)

abbrev forced : ℤ → Version → Option Error × Version
forced (pos n) s = (none, some n)
forced (negsuc n) s = (none, none)

abbrev version_of : Version → Result Error (ℕ × Bool)
version_of none = err nil_version
version_of (some n) = ok (n, false)

abbrev three : Library
three = record {
  Db = Version;
  up = up_all;
  down = down_all;
  steps = λ n s. (none, s);
  version = version_of;
  force = forced;
  close = λ s. (none, none);
}

three-ForceLaws : ForceLaws three
three-ForceLaws = record { force_version = λ n s h. refl; force_nil = λ s h. refl }

-- Up at the last version returns no error and changes nothing.
up_at_three : up three (some 3) ≡ (none, some 3)
unfolding up run_error is_no_change
up_at_three = refl
