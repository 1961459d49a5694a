-- ===== src/Postgres/Select/Refinement.antt =====
-- `Build` of `SelectBuilder` against the query as it was written.
use txova_go_db.Prelude.{
  ◌+◌, ◌≡◌, refl, sym, ap, ◌∙◌, ◌++◌, none, length, length-append, arith, false, ok,
  unless_error-eq-ok, then_check-eq-none, range_from,
}
use txova_go_db.Text.{codes, Lacks}
use txova_go_db.Postgres.Placeholders.{mark, replace_placeholders}
use txova_go_db.Postgres.Placeholders.Numbering.{
  count_marks, numbered, replace_placeholders_lem, count_marks-append, numbered-append,
  count_marks-Lacks, numbered-Lacks, numbered-append_plain, count_marks-append_plain,
}
use txova_go_db.Postgres.Placeholders.Clauses.{
  raw_clauses, clause_args, build_condition_clauses_lem, raw_clauses-balanced,
}
use txova_go_db.Postgres.Placeholders.Parameters.{
  parameters, IsPlain, parameters-replace_placeholders,
}
use txova_go_db.Postgres.QueryBuilder.{Query, validate_table_name}
use txova_go_db.Postgres.QueryBuilder.Allowlist.{validate_table_name-Lacks, mark-IsForeign}
use txova_go_db.Postgres.Select.{SelectBuilder}
use txova_go_db.Postgres.Select.Validate.{validate_select}
use txova_go_db.Postgres.Select.Build.{
  build_select_clause, build_group_by_clause, build_tail, build_parts, build,
}
use txova_go_db.Postgres.Select.Plain.{
  build_select_clause-Lacks, build_group_by_clause-Lacks, build_tail-Lacks,
}
use txova_go_db.Postgres.Select.Numbering.{
  raw_joins, join_args, raw_select, select_args, HasNoMarks, HasArgs, build_join_clauses-raw,
  raw_joins-balanced,
}

module _ {A : Type 0} where
  validate_select-table :
      (s : SelectBuilder A) → validate_select s ≡ none → validate_table_name s.table ≡ none
  unfolding validate_select
  validate_select-table s h = (then_check-eq-none (validate_table_name s.table) _ h).0

  module _ (s : SelectBuilder A) (table : Lacks mark s.table) (silent : HasNoMarks s) where
    where_keyword : Lacks mark (codes " WHERE ")
    where_keyword = omega arith

    having_keyword : Lacks mark (codes " HAVING ")
    having_keyword = omega arith

    select_plain : Lacks mark (build_select_clause s)
    select_plain = build_select_clause-Lacks s silent.columns table

    group_by_plain : Lacks mark (build_group_by_clause s.group_by)
    group_by_plain = build_group_by_clause-Lacks s.group_by silent.group_by

    tail_plain : Lacks mark (build_tail s)
    tail_plain = build_tail-Lacks s silent.order_by

    build_parts-raw : build_parts s ≡ (numbered 1 (raw_select s), select_args s)
    unfolding build_parts raw_select select_args
    build_parts-raw =
        let joins = count_marks (raw_joins s.joins) in
        let wheres = count_marks (raw_clauses (codes " WHERE ") s.wheres) in
        rw
          (
            build_join_clauses-raw s.joins 1 silent.join_tables,
            build_condition_clauses_lem s.wheres (codes " WHERE ") (1 + joins) where_keyword,
            build_condition_clauses_lem s.having (codes " HAVING ") (1 + joins + wheres)
                having_keyword,
            numbered-append_plain (build_select_clause s) _ 1 select_plain,
            numbered-append (raw_joins s.joins) _ 1,
            numbered-append (raw_clauses (codes " WHERE ") s.wheres) _ (1 + joins),
            numbered-append_plain (build_group_by_clause s.group_by) _ (1 + joins + wheres)
                group_by_plain,
            numbered-append (raw_clauses (codes " HAVING ") s.having) _ (1 + joins + wheres),
            numbered-Lacks (build_tail s) _ tail_plain,
          )
          refl

    raw_select-balanced : HasArgs s → count_marks (raw_select s) ≡ length (select_args s)
    unfolding raw_select select_args
    raw_select-balanced h = omega (
      arith,
      count_marks-append_plain (build_select_clause s)
          (raw_joins s.joins
            ++ (raw_clauses (codes " WHERE ") s.wheres
                ++ (build_group_by_clause s.group_by
                    ++ (raw_clauses (codes " HAVING ") s.having ++ build_tail s))))
          select_plain,
      count_marks-append (raw_joins s.joins) (
          raw_clauses (codes " WHERE ") s.wheres
          ++ (build_group_by_clause s.group_by
              ++ (raw_clauses (codes " HAVING ") s.having ++ build_tail s))),
      count_marks-append (raw_clauses (codes " WHERE ") s.wheres) (
          build_group_by_clause s.group_by
          ++ (raw_clauses (codes " HAVING ") s.having ++ build_tail s)),
      count_marks-append_plain (build_group_by_clause s.group_by)
          (raw_clauses (codes " HAVING ") s.having ++ build_tail s) group_by_plain,
      count_marks-append (raw_clauses (codes " HAVING ") s.having) (build_tail s),
      count_marks-Lacks (build_tail s) tail_plain,
      raw_joins-balanced s.joins silent.join_tables h.joins,
      raw_clauses-balanced s.wheres (codes " WHERE ") where_keyword h.wheres,
      raw_clauses-balanced s.having (codes " HAVING ") having_keyword h.having,
      length-append (join_args s.joins) (clause_args s.wheres ++ clause_args s.having),
      length-append (clause_args s.wheres) (clause_args s.having),
    )

  build-raw :
      (s : SelectBuilder A) {q : Query A}
      → build s ≡ ok q
      → HasNoMarks s
      → (q ≡ (numbered 1 (raw_select s), select_args s)) × Lacks mark s.table
  unfolding build
  build-raw s {q} e silent =
      let (valid, parts) = unless_error-eq-ok (validate_select s) (build_parts s) e in
      let table =
        validate_table_name-Lacks mark s.table mark-IsForeign (validate_select-table s valid) in
      (sym parts ∙ build_parts-raw s table silent, table)

  -- If `Build` succeeds and no column, joined table, GROUP BY entry, ORDER BY column or direction
  -- holds a `?`, then the SQL is what `replacePlaceholders` makes, from index 1, of the whole query
  -- as it was written, and the arguments are those of the joins, of WHERE and of HAVING, in order.
  pub build-replace_placeholders :
      (s : SelectBuilder A) {q : Query A}
      → build s ≡ ok q
      → HasNoMarks s
      → (q.0 ≡ (replace_placeholders (raw_select s) 1).0) × (q.1 ≡ select_args s)
  build-replace_placeholders s e silent =
      let (parts, _) = build-raw s e silent in
      rw (replace_placeholders_lem (raw_select s) 1) (ap (λ p. p.0) parts, ap (λ p. p.1) parts)

  -- If `Build` succeeds, the names hold no `?`, every condition has as many arguments as
  -- placeholders, and the query as it was written holds no `$` and no digit right behind a `?`, then
  -- the SQL refers to exactly the parameters 1, 2, …, n in this order, n being the number of
  -- arguments.
  pub parameters-build :
      (s : SelectBuilder A) {q : Query A}
      → build s ≡ ok q
      → HasNoMarks s
      → HasArgs s
      → IsPlain false (raw_select s)
      → parameters q.0 ≡ range_from 1 (length q.1)
  parameters-build s {q} e silent h plain =
      let (parts, table) = build-raw s e silent in
      let refs = parameters-replace_placeholders (raw_select s) 1 plain in
      let same = rw (replace_placeholders_lem (raw_select s) 1) at refs in
      rw (parts, ← raw_select-balanced s table silent h) same
