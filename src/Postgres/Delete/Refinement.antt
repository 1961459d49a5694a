-- ===== src/Postgres/Delete/Refinement.antt =====
-- `Build` of `DeleteBuilder`: the guard, and the SQL against the statement as it was written.
use txova_go_db.Prelude.{
  ◌≡◌, ◌≢◌, refl, sym, ap, ◌∙◌, ◌++◌, ◌↔◌, ◌⊎◌, inl, inr, Bool, true, false, ◌&&◌, not, List, [],
  ◌∷◌, none, some, All, All-append, length, arith, ok, unless_error-eq-ok, then_check-eq-none,
  range_from, ltb, if◌then◌else◌,
}
use txova_go_db.Text.{Text, codes, Lacks}
use txova_go_db.Postgres.Identifier.{IsName}
use txova_go_db.Postgres.Placeholders.{mark, replace_placeholders, WhereClause}
use txova_go_db.Postgres.Placeholders.Numbering.{
  count_marks, numbered, replace_placeholders_lem, count_marks-append, numbered-append,
  count_marks-Lacks, numbered-Lacks, numbered-append_plain, count_marks-append_plain,
}
use txova_go_db.Postgres.Placeholders.Clauses.{
  raw_clauses, clause_args, IsBalanced, build_condition_clauses_lem, raw_clauses-balanced,
}
use txova_go_db.Postgres.Placeholders.Parameters.{
  parameters, IsPlain, parameters-replace_placeholders,
}
use txova_go_db.Postgres.QueryBuilder.{
  Query, unrestricted_delete, validate_table_name, returning_clause,
}
use txova_go_db.Postgres.QueryBuilder.Allowlist.{
  validate_table_name-Lacks, validate_table_name_iff, mark-IsForeign, both_iff,
}
use txova_go_db.Postgres.QueryBuilder.Plain.{returning_clause-Lacks}
use txova_go_db.Postgres.Delete.{DeleteBuilder, validate_delete, build_parts, build}

module _ {A : Type 0} where
  -- The statement with its placeholders as they were written.
  unfoldable pub raw_delete : DeleteBuilder A → Text
  raw_delete d =
      (codes "DELETE FROM " ++ d.table)
      ++ (raw_clauses (codes " WHERE ") d.wheres ++ returning_clause d.returning)

  module _ (d : DeleteBuilder A) (table : Lacks mark d.table)
      (silent : All (Lacks mark) d.returning) where
    front-Lacks : Lacks mark (codes "DELETE FROM " ++ d.table)
    front-Lacks = All-append _ (codes "DELETE FROM ") _ (omega arith) table

    build_parts-raw : build_parts d ≡ (numbered 1 (raw_delete d), clause_args d.wheres)
    unfolding build_parts raw_delete
    build_parts-raw =
        let keyword : Lacks mark (codes " WHERE ") = omega arith in
        rw
          (
            build_condition_clauses_lem d.wheres (codes " WHERE ") 1 keyword,
            numbered-append_plain (codes "DELETE FROM " ++ d.table) _ 1 front-Lacks,
            numbered-append (raw_clauses (codes " WHERE ") d.wheres) _ 1,
            numbered-Lacks (returning_clause d.returning) _
                (returning_clause-Lacks d.returning silent),
          )
          refl

    raw_delete-balanced :
        IsBalanced d.wheres → count_marks (raw_delete d) ≡ length (clause_args d.wheres)
    unfolding raw_delete
    raw_delete-balanced h =
        let keyword : Lacks mark (codes " WHERE ") = omega arith in
        let conditions = raw_clauses (codes " WHERE ") d.wheres in
        omega (
          arith,
          count_marks-append_plain (codes "DELETE FROM " ++ d.table)
              (conditions ++ returning_clause d.returning) front-Lacks,
          count_marks-append conditions (returning_clause d.returning),
          count_marks-Lacks (returning_clause d.returning)
              (returning_clause-Lacks d.returning silent),
          raw_clauses-balanced d.wheres (codes " WHERE ") keyword h,
        )

  guard_iff :
      (ws : List (WhereClause A)) (allow : Bool)
      → ((if not (ltb 0 (length ws)) && not allow then some unrestricted_delete else none) ≡ none)
        ↔ ((ws ≢ []) ⊎ (allow ≡ true))
  guard_iff [] true = (λ _. inr refl, λ _. refl)
  guard_iff [] false = (λ h. cc, elim [ inl n ↦ absurd (n refl) | inr e ↦ cc ])
  guard_iff (w ∷ ws) allow = (λ _. inl (λ e. cc), λ _. ground arith)

  -- `Build` succeeds exactly if the table is a well-formed name and the statement has a condition or
  -- the caller has allowed an unrestricted delete; the RETURNING columns and the allowlist play no
  -- part.
  pub build_delete-guarded :
      (d : DeleteBuilder A)
      → ((q : Query A) × (build d ≡ ok q))
        ↔ (IsName d.table × ((d.wheres ≢ []) ⊎ (d.allow_unrestricted ≡ true)))
  unfolding build validate_delete
  build_delete-guarded d =
      let iff =
        both_iff (validate_table_name d.table)
          (if not (ltb 0 (length d.wheres)) && not d.allow_unrestricted
            then some unrestricted_delete
            else none)
          (validate_table_name_iff d.table) (guard_iff d.wheres d.allow_unrestricted) in
      (
        λ (q, h). iff.0 (unless_error-eq-ok (validate_delete d) (build_parts d) h).0,
        λ a. (build_parts d, rw (iff.1 a)),
      )

  build-raw :
      (d : DeleteBuilder A) {q : Query A}
      → build d ≡ ok q
      → All (Lacks mark) d.returning
      → (q ≡ (numbered 1 (raw_delete d), clause_args d.wheres)) × Lacks mark d.table
  unfolding build validate_delete
  build-raw d {q} e silent =
      let (valid, parts) = unless_error-eq-ok (validate_delete d) (build_parts d) e in
      let (t, _) = then_check-eq-none (validate_table_name d.table) _ valid in
      let table = validate_table_name-Lacks mark d.table mark-IsForeign t in
      (sym parts ∙ build_parts-raw d table silent, table)

  -- If `Build` succeeds, no returned column holds a `?`, every condition has as many arguments as
  -- placeholders, and the statement as it was written holds no `$` and no digit right behind a `?`,
  -- then the SQL is the statement numbered from 1 as `replacePlaceholders` numbers, the arguments are
  -- those of the conditions in order, and the SQL refers to exactly the parameters 1, 2, …, n in
  -- this order, n being the number of arguments.
  pub build-delete :
      (d : DeleteBuilder A) {q : Query A}
      → build d ≡ ok q
      → All (Lacks mark) d.returning
      → IsBalanced d.wheres
      → IsPlain false (raw_delete d)
      → (q.0 ≡ (replace_placeholders (raw_delete d) 1).0)
        × (q.1 ≡ clause_args d.wheres)
        × (parameters q.0 ≡ range_from 1 (length q.1))
  build-delete d {q} e silent h plain =
      let (parts, table) = build-raw d e silent in
      let refs = parameters-replace_placeholders (raw_delete d) 1 plain in
      let same = rw (replace_placeholders_lem (raw_delete d) 1) at refs in
      rw (replace_placeholders_lem (raw_delete d) 1) (
        ap (λ p. p.0) parts,
        ap (λ p. p.1) parts,
        rw (parts, ← raw_delete-balanced d table silent h) same,
      )
