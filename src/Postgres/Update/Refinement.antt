-- ===== src/Postgres/Update/Refinement.antt =====
-- `Build` of `UpdateBuilder` against the statement with `?` for each assigned value.
use txova_go_db.Prelude.{
  ◌+◌, ◌≡◌, refl, sym, ap, ◌∙◌, ◌++◌, List, All-append, length, length-append, arith, ok,
  unless_error-eq-ok, then_check-eq-none, range_from, false,
}
use txova_go_db.Text.{Text, codes, Lacks}
use txova_go_db.Postgres.Placeholders.{mark, replace_placeholders}
use txova_go_db.Postgres.Placeholders.Numbering.{
  count_marks, numbered, replace_placeholders_lem, count_marks-append, numbered-append,
  count_marks-Lacks, numbered-Lacks, numbered-append_plain, count_marks-append_plain,
}
use txova_go_db.Postgres.Placeholders.Clauses.{
  raw_clauses, clause_args, IsBalanced, build_condition_clauses_lem, raw_clauses-balanced,
}
use txova_go_db.Postgres.Placeholders.Parameters.{
  parameters, IsPlain, parameters-replace_placeholders,
}
use txova_go_db.Postgres.QueryBuilder.{Query, validate_table_name, returning_clause}
use txova_go_db.Postgres.QueryBuilder.Allowlist.{validate_table_name-Lacks, mark-IsForeign}
use txova_go_db.Postgres.QueryBuilder.Plain.{returning_clause-Lacks}
use txova_go_db.Postgres.Update.{
  UpdateBuilder, validate_update, build_where_clause, update_front, build_parts, build,
}
use txova_go_db.Postgres.Update.Sets.{
  raw_sets, set_args, HasNoMarks, count_marks-raw_sets, build_set_clause-numbered,
}

module _ {A : Type 0} where
  -- The statement with `?` for each assigned value.
  unfoldable pub raw_update : UpdateBuilder A → Text
  raw_update u =
      update_front u
      ++ (raw_sets u.sets
          ++ (raw_clauses (codes " WHERE ") u.wheres ++ returning_clause u.returning))

  pub update_args : UpdateBuilder A → List A
  update_args u = set_args u.sets ++ clause_args u.wheres

  module _ (u : UpdateBuilder A) (table : Lacks mark u.table) (silent : HasNoMarks u) where
    update_front-Lacks : Lacks mark (update_front u)
    unfolding update_front
    update_front-Lacks =
        All-append _ (codes "UPDATE ") _ (omega arith) (All-append _ u.table _ table (omega arith))

    build_parts-raw : build_parts u ≡ (numbered 1 (raw_update u), update_args u)
    unfolding build_parts raw_update update_args build_where_clause
    build_parts-raw =
        let keyword : Lacks mark (codes " WHERE ") = omega arith in
        let sets = count_marks (raw_sets u.sets) in
        rw
          (
            build_set_clause-numbered u.sets 1 silent.columns,
            build_condition_clauses_lem u.wheres (codes " WHERE ") (1 + sets) keyword,
            numbered-append_plain (update_front u) _ 1 update_front-Lacks,
            numbered-append (raw_sets u.sets) _ 1,
            numbered-append (raw_clauses (codes " WHERE ") u.wheres) _ (1 + sets),
            numbered-Lacks (returning_clause u.returning) _
                (returning_clause-Lacks u.returning silent.returning),
          )
          refl

    raw_update-balanced : IsBalanced u.wheres → count_marks (raw_update u) ≡ length (update_args u)
    unfolding raw_update update_args
    raw_update-balanced h =
        let keyword : Lacks mark (codes " WHERE ") = omega arith in
        let conditions = raw_clauses (codes " WHERE ") u.wheres in
        omega (
          arith,
          count_marks-append_plain (update_front u)
              (raw_sets u.sets ++ (conditions ++ returning_clause u.returning)) update_front-Lacks,
          count_marks-append (raw_sets u.sets) (conditions ++ returning_clause u.returning),
          count_marks-append conditions (returning_clause u.returning),
          count_marks-Lacks (returning_clause u.returning)
              (returning_clause-Lacks u.returning silent.returning),
          count_marks-raw_sets u.sets silent.columns,
          raw_clauses-balanced u.wheres (codes " WHERE ") keyword h,
          length-append (set_args u.sets) (clause_args u.wheres),
        )

  build-raw :
      (u : UpdateBuilder A) {q : Query A}
      → build u ≡ ok q
      → HasNoMarks u
      → (q ≡ (numbered 1 (raw_update u), update_args u)) × Lacks mark u.table
  unfolding build validate_update
  build-raw u {q} e silent =
      let (valid, parts) = unless_error-eq-ok (validate_update u) (build_parts u) e in
      let (t, _) = then_check-eq-none (validate_table_name u.table) _ valid in
      let table = validate_table_name-Lacks mark u.table mark-IsForeign t in
      (sym parts ∙ build_parts-raw u table silent, table)

  -- If `Build` succeeds and no assigned or returned column holds a `?`, then the SQL is what
  -- `replacePlaceholders` makes, from index 1, of the statement with `?` for each assigned value, and
  -- the arguments are the assigned values and then those of WHERE.
  pub build-update :
      (u : UpdateBuilder A) {q : Query A}
      → build u ≡ ok q
      → HasNoMarks u
      → (q.0 ≡ (replace_placeholders (raw_update u) 1).0) × (q.1 ≡ update_args u)
  build-update u e silent =
      let (parts, _) = build-raw u e silent in
      rw (replace_placeholders_lem (raw_update u) 1) (ap (λ p. p.0) parts, ap (λ p. p.1) parts)

  -- If `Build` succeeds, the names hold no `?`, every condition has as many arguments as
  -- placeholders, and the statement with `?` holds no `$` and no digit right behind a `?`, then the
  -- SQL refers to exactly the parameters 1, 2, …, n in this order, n being the number of arguments.
  pub parameters-build_update :
      (u : UpdateBuilder A) {q : Query A}
      → build u ≡ ok q
      → HasNoMarks u
      → IsBalanced u.wheres
      → IsPlain false (raw_update u)
      → parameters q.0 ≡ range_from 1 (length q.1)
  parameters-build_update u {q} e silent h plain =
      let (parts, table) = build-raw u e silent in
      let refs = parameters-replace_placeholders (raw_update u) 1 plain in
      let same = rw (replace_placeholders_lem (raw_update u) 1) at refs in
      rw (parts, ← raw_update-balanced u table silent h) same
