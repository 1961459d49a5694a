-- ===== src/Postgres/QueryBuilder/Tests.antt =====
-- A qualified name.
use txova_go_db.Prelude.{◌≡◌, true, refl}
use txova_go_db.Text.{Text, codes}
use txova_go_db.Postgres.Identifier.{column_name_matches}

abbrev qualified_name : Text
qualified_name = codes "users.id_2"

qualified_name-matches : column_name_matches qualified_name ≡ true
unfolding column_name_matches
qualified_name-matches = refl
