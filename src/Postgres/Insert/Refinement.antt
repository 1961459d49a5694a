-- ===== src/Postgres/Insert/Refinement.antt =====
-- `Build` of `InsertBuilder` against the statement as it would be written with `?`.
use txova_go_db.Prelude.{
  ◌*◌, ◌≡◌, refl, sym, ap, ◌∙◌, ◌++◌, false, [], Option, none, some, All, All-append, length, arith,
  ok, unless_error-eq-ok, then_check-eq-none, range_from, ltb, if◌then◌else◌, not,
}
use txova_go_db.Text.{Text, codes, join, text_eq, Lacks}
use txova_go_db.Text.Equality.{join-Lacks}
use txova_go_db.Postgres.Placeholders.{mark, replace_placeholders}
use txova_go_db.Postgres.Placeholders.Numbering.{
  count_marks, numbered, replace_placeholders_lem, count_marks-append, numbered-append,
  count_marks-Lacks, numbered-Lacks, numbered-append_plain, count_marks-append_plain,
}
use txova_go_db.Postgres.Placeholders.Parameters.{
  parameters, IsPlain, parameters-replace_placeholders,
}
use txova_go_db.Postgres.QueryBuilder.{Query, validate_table_name}
use txova_go_db.Postgres.QueryBuilder.Allowlist.{validate_table_name-Lacks, mark-IsForeign}
use txova_go_db.Postgres.QueryBuilder.Plain.{if-Lacks, returning_clause-Lacks}
use txova_go_db.Postgres.Insert.{
  InsertBuilder, ConflictClause, validate_insert, validate_insert_columns, validate_insert_values,
  build_on_conflict_clause, insert_front, insert_tail, build_parts, build,
}
use txova_go_db.Postgres.Insert.Values.{
  raw_values, all_values, build_values_clause-numbered, count_marks-raw_values, length-all_values,
}

-- No name of a conflict clause holds a `?`.
abbrev pub IsConflictPlain : Option ConflictClause → Type 0
IsConflictPlain none = Unit
IsConflictPlain (some c) = Lacks mark c.constraint × All (Lacks mark) c.columns

build_on_conflict_clause-Lacks :
    (o : Option ConflictClause) → IsConflictPlain o → Lacks mark (build_on_conflict_clause o)
unfolding build_on_conflict_clause
build_on_conflict_clause-Lacks none h = tt
build_on_conflict_clause-Lacks (some c) (hk, hc) =
    All-append _ (codes " ON CONFLICT") _ (omega arith) (
      All-append _
        (if not (text_eq c.constraint [])
          then codes " ON CONSTRAINT " ++ c.constraint
          else if ltb 0 (length c.columns)
          then codes " (" ++ (join c.columns (codes ", ") ++ codes ")")
          else [])
        _
        (if-Lacks (not (text_eq c.constraint [])) _ _
          (All-append _ (codes " ON CONSTRAINT ") _ (omega arith) hk)
          (if-Lacks (ltb 0 (length c.columns)) _ _
            (All-append _ (codes " (") _ (omega arith) (
              All-append _ (join c.columns (codes ", ")) _
                (join-Lacks mark c.columns (codes ", ") hc (omega arith)) (omega arith)))
            tt))
        (if-Lacks c.do_nothing (codes " DO NOTHING") [] (omega arith) tt))

module _ {A : Type 0} where
  -- No name of the statement holds a `?`. The table needs no such condition: `Build` checks it.
  pub record HasNoMarks (i : InsertBuilder A) : Type 0 where
    pub columns : All (Lacks mark) i.columns
    pub returning : All (Lacks mark) i.returning
    pub on_conflict : IsConflictPlain i.on_conflict

  -- The statement with `?` for each value.
  unfoldable pub raw_insert : InsertBuilder A → Text
  raw_insert i = insert_front i ++ (raw_values i.values ++ insert_tail i)

  module _ (i : InsertBuilder A) (table : Lacks mark i.table) (silent : HasNoMarks i) where
    insert_front-Lacks : Lacks mark (insert_front i)
    unfolding insert_front
    insert_front-Lacks = All-append _ (codes "INSERT INTO ") _ (omega arith) (
        All-append _ i.table _ table (
          All-append _ (codes " (") _ (omega arith) (
            All-append _ (join i.columns (codes ", ")) _
              (join-Lacks mark i.columns (codes ", ") silent.columns (omega arith)) (omega arith))))

    insert_tail-Lacks : Lacks mark (insert_tail i)
    unfolding insert_tail
    insert_tail-Lacks =
        All-append _ (build_on_conflict_clause i.on_conflict) _
          (build_on_conflict_clause-Lacks i.on_conflict silent.on_conflict)
          (returning_clause-Lacks i.returning silent.returning)

    build_parts-raw : build_parts i ≡ (numbered 1 (raw_insert i), all_values i.values)
    unfolding build_parts raw_insert
    build_parts-raw =
        rw
          (
            build_values_clause-numbered i.values,
            numbered-append_plain (insert_front i) (raw_values i.values ++ insert_tail i) 1
                insert_front-Lacks,
            numbered-append (raw_values i.values) (insert_tail i) 1,
            numbered-Lacks (insert_tail i) _ insert_tail-Lacks,
          )
          refl

    count_marks-raw_insert : count_marks (raw_insert i) ≡ length (all_values i.values)
    unfolding raw_insert
    count_marks-raw_insert = omega (
      arith,
      count_marks-append_plain (insert_front i) (raw_values i.values ++ insert_tail i)
          insert_front-Lacks,
      count_marks-append (raw_values i.values) (insert_tail i),
      count_marks-Lacks (insert_tail i) insert_tail-Lacks,
      count_marks-raw_values i.values,
    )

  validate_insert-parts :
      (i : InsertBuilder A)
      → validate_insert i ≡ none
      → (validate_table_name i.table ≡ none)
        × (validate_insert_values (length i.columns) i.values ≡ none)
  unfolding validate_insert
  validate_insert-parts i h =
      let (t, rest) = then_check-eq-none (validate_table_name i.table) _ h in
      let (c, rest2) =
        then_check-eq-none (validate_insert_columns i.query_builder i.columns) _ rest in
      (t, (then_check-eq-none (validate_insert_values (length i.columns) i.values) _ rest2).0)

  build-raw :
      (i : InsertBuilder A) {q : Query A}
      → build i ≡ ok q
      → HasNoMarks i
      → (q ≡ (numbered 1 (raw_insert i), all_values i.values))
        × Lacks mark i.table
        × (validate_insert_values (length i.columns) i.values ≡ none)
  unfolding build
  build-raw i {q} e silent =
      let (valid, parts) = unless_error-eq-ok (validate_insert i) (build_parts i) e in
      let (t, v) = validate_insert-parts i valid in
      let table = validate_table_name-Lacks mark i.table mark-IsForeign t in
      (sym parts ∙ build_parts-raw i table silent, table, v)

  -- If `Build` succeeds and no column, RETURNING column or conflict name holds a `?`, then the SQL
  -- is the statement with one `?` for each value, numbered from 1 as `replacePlaceholders` numbers,
  -- the arguments are the values row by row, and there are as many as rows times columns.
  pub build-insert :
      (i : InsertBuilder A) {q : Query A}
      → build i ≡ ok q
      → HasNoMarks i
      → (q.0 ≡ (replace_placeholders (raw_insert i) 1).0)
        × (q.1 ≡ all_values i.values)
        × (length q.1 ≡ length i.values * length i.columns)
  build-insert i e silent =
      let (parts, table, valid) = build-raw i e silent in
      let values = ap (λ p. p.1) parts in
      rw (replace_placeholders_lem (raw_insert i) 1) (
        ap (λ p. p.0) parts,
        values,
        ap length values ∙ length-all_values (length i.columns) i.values valid,
      )

  -- If `Build` succeeds, the names hold no `?`, and the statement with `?` for each value holds no
  -- `$` and no digit right behind a `?`, then the SQL refers to exactly the parameters 1, 2, …, n in
  -- this order, n being the number of rows times the number of columns.
  pub parameters-build_insert :
      (i : InsertBuilder A) {q : Query A}
      → build i ≡ ok q
      → HasNoMarks i
      → IsPlain false (raw_insert i)
      → parameters q.0 ≡ range_from 1 (length i.values * length i.columns)
  parameters-build_insert i {q} e silent plain =
      let (parts, table, valid) = build-raw i e silent in
      let refs = parameters-replace_placeholders (raw_insert i) 1 plain in
      let same = rw (replace_placeholders_lem (raw_insert i) 1) at refs in
      rw
        (
          parts,
          ← length-all_values (length i.columns) i.values valid,
          ← count_marks-raw_insert i table silent,
        )
        same
