-- ===== src/Postgres/Insert/Allowed.antt =====
-- Which statements the validation of `InsertBuilder` lets through when there is an allowlist.
use txova_go_db.Prelude.{
  ℕ, ◌+◌, ◌≡◌, ◌≢◌, refl, ◌↔◌, ◌⊎◌, inl, inr, List, [], ◌∷◌, Option, none, some, All, arith, ok,
  unless_error-eq-ok, length, ltb, if◌then◌else◌, not, Bool-cases,
}
use txova_go_db.Text.{Text, text_eq}
use txova_go_db.Text.Equality.{text_eq_iff}
use txova_go_db.Postgres.Identifier.{IsName}
use txova_go_db.Postgres.QueryBuilder.{
  BuildError, Query, QueryBuilder, invalid_returning, invalid_conflict_constraint,
  invalid_conflict_column, no_columns, no_values, validate_column_name, validate_table_name,
  replaced, star,
}
use txova_go_db.Postgres.QueryBuilder.Allowlist.{
  IsListed, validate_column_name_iff, validate_table_name_iff, replaced-eq-none, both_iff,
}
use txova_go_db.Postgres.Insert.{
  ConflictClause, InsertBuilder, validate_columns, validate_insert_columns,
  validate_returning_columns, validate_conflict_columns, validate_on_conflict, row_error,
  validate_rows, validate_insert_values, validate_insert, build_parts, build,
}

-- The constraint is not given or a well-formed name, and the columns are those of the allowlist.
abbrev pub IsConflictAllowed : QueryBuilder → Option ConflictClause → Type 0
IsConflictAllowed qb none = Unit
IsConflictAllowed qb (some c) =
    ((c.constraint ≡ []) ⊎ IsName c.constraint) × All (IsListed qb) c.columns

-- What a statement must be to pass.
pub record IsAllowed {A : Type 0} (i : InsertBuilder A) : Type 0 where
  pub table : IsName i.table
  pub some_columns : i.columns ≢ []
  pub columns : All (IsListed i.query_builder) i.columns
  pub some_rows : i.values ≢ []
  pub rows : All (λ (row : List A). length row ≡ length i.columns) i.values
  pub returning : All (λ col. (col ≡ star) ⊎ IsListed i.query_builder col) i.returning
  pub on_conflict : IsConflictAllowed i.query_builder i.on_conflict

-- A check that the list is not empty in front of another one.
nonempty_iff :
    {A : Type 0} (xs : List A) (f : Option BuildError) (e : BuildError)
    → ((if ltb 0 (length xs) then f else some e) ≡ none) ↔ ((xs ≢ []) × (f ≡ none))
nonempty_iff [] f e = (λ h. cc, λ (n, h). absurd (n refl))
nonempty_iff (x ∷ xs) f e = (λ h. (λ q. cc, ground arith), λ (n, h). ground arith)

module _ (qb : QueryBuilder) (listed : qb.allowed_columns ≢ []) where
  validate_columns_iff :
      (cols : List Text) → (validate_columns qb cols ≡ none) ↔ All (IsListed qb) cols
  unfolding validate_columns
  validate_columns_iff [] = (λ _. tt, λ _. refl)
  validate_columns_iff (col ∷ cols) =
      both_iff (validate_column_name qb col) (validate_columns qb cols)
        (validate_column_name_iff qb col listed) (validate_columns_iff cols)

  returning_column_iff :
      (col : Text)
      → ((if text_eq col star
            then none
            else replaced (validate_column_name qb col) (invalid_returning col))
          ≡ none)
        ↔ ((col ≡ star) ⊎ IsListed qb col)
  returning_column_iff col =
      let check = validate_column_name_iff qb col listed in
      let wrapped = replaced-eq-none (validate_column_name qb col) (invalid_returning col) in
      elim (Bool-cases (text_eq col star)) [
        | inl e ↦ (λ _. inl ((text_eq_iff col star).0 e), λ _. rw e refl)
        | inr e ↦ rw e (
          λ h. inr (check.0 (wrapped.0 h)),
          elim [ inl s ↦ let t = (text_eq_iff col star).1 s in cc | inr a ↦ wrapped.1 (check.1 a) ],
        )
      ]

  validate_returning_columns_iff :
      (cols : List Text)
      → (validate_returning_columns qb cols ≡ none)
        ↔ All (λ col. (col ≡ star) ⊎ IsListed qb col) cols
  unfolding validate_returning_columns
  validate_returning_columns_iff [] = (λ _. tt, λ _. refl)
  validate_returning_columns_iff (col ∷ cols) =
      both_iff
        (if text_eq col star
          then none
          else replaced (validate_column_name qb col) (invalid_returning col))
        (validate_returning_columns qb cols) (returning_column_iff col)
        (validate_returning_columns_iff cols)

  validate_conflict_columns_iff :
      (cols : List Text) → (validate_conflict_columns qb cols ≡ none) ↔ All (IsListed qb) cols
  unfolding validate_conflict_columns
  validate_conflict_columns_iff [] = (λ _. tt, λ _. refl)
  validate_conflict_columns_iff (col ∷ cols) =
      let check = validate_column_name_iff qb col listed in
      let wrapped = replaced-eq-none (validate_column_name qb col) (invalid_conflict_column col) in
      both_iff (replaced (validate_column_name qb col) (invalid_conflict_column col))
        (validate_conflict_columns qb cols) (λ h. check.0 (wrapped.0 h), λ a. wrapped.1 (check.1 a))
        (validate_conflict_columns_iff cols)

  constraint_iff :
      (k : Text)
      → ((if not (text_eq k [])
            then replaced (validate_table_name k) (invalid_conflict_constraint k)
            else none)
          ≡ none)
        ↔ ((k ≡ []) ⊎ IsName k)
  constraint_iff k =
      let check = validate_table_name_iff k in
      let wrapped = replaced-eq-none (validate_table_name k) (invalid_conflict_constraint k) in
      elim (Bool-cases (text_eq k [])) [
        | inl e ↦ (λ _. inl ((text_eq_iff k []).0 e), λ _. rw e refl)
        | inr e ↦ rw e (
          λ h. inr (check.0 (wrapped.0 h)),
          elim [ inl s ↦ let t = (text_eq_iff k []).1 s in cc | inr a ↦ wrapped.1 (check.1 a) ],
        )
      ]

  validate_on_conflict_iff :
      (o : Option ConflictClause) → (validate_on_conflict qb o ≡ none) ↔ IsConflictAllowed qb o
  unfolding validate_on_conflict
  validate_on_conflict_iff none = (λ _. tt, λ _. refl)
  validate_on_conflict_iff (some c) =
      both_iff
        (if not (text_eq c.constraint [])
          then replaced (validate_table_name c.constraint)
              (invalid_conflict_constraint c.constraint)
          else none)
        (validate_conflict_columns qb c.columns) (constraint_iff c.constraint)
        (validate_conflict_columns_iff c.columns)

module _ {A : Type 0} where
  row_error_iff :
      (cols idx : ℕ) (row : List A) → (row_error cols idx row ≡ none) ↔ (length row ≡ cols)
  unfolding row_error
  row_error_iff cols idx row = ground arith

  validate_rows_iff :
      (cols idx : ℕ) (rows : List (List A))
      → (validate_rows cols idx rows ≡ none) ↔ All (λ (row : List A). length row ≡ cols) rows
  unfolding validate_rows
  validate_rows_iff cols idx [] = (λ _. tt, λ _. refl)
  validate_rows_iff cols idx (row ∷ rest) =
      both_iff (row_error cols idx row) (validate_rows cols (idx + 1) rest)
        (row_error_iff cols idx row) (validate_rows_iff cols (idx + 1) rest)

  module _ (i : InsertBuilder A) (listed : i.query_builder.allowed_columns ≢ []) where
    columns_iff :
        (validate_insert_columns i.query_builder i.columns ≡ none)
        ↔ ((i.columns ≢ []) × All (IsListed i.query_builder) i.columns)
    unfolding validate_insert_columns
    columns_iff =
        let split =
          nonempty_iff i.columns (validate_columns i.query_builder i.columns) no_columns in
        let each = validate_columns_iff i.query_builder listed i.columns in
        (λ h. let (n, v) = split.0 h in (n, each.0 v), λ (n, a). split.1 (n, each.1 a))

    rows_iff :
        (validate_insert_values (length i.columns) i.values ≡ none)
        ↔ ((i.values ≢ []) × All (λ (row : List A). length row ≡ length i.columns) i.values)
    unfolding validate_insert_values
    rows_iff =
        let split = nonempty_iff i.values (validate_rows (length i.columns) 0 i.values) no_values in
        let each = validate_rows_iff (length i.columns) 0 i.values in
        (λ h. let (n, v) = split.0 h in (n, each.0 v), λ (n, a). split.1 (n, each.1 a))

    validate_insert_iff : (validate_insert i ≡ none) ↔ IsAllowed i
    unfolding validate_insert
    validate_insert_iff =
        let qb = i.query_builder in
        let iff = both_iff (validate_table_name i.table) _ (validate_table_name_iff i.table) (
          both_iff (validate_insert_columns qb i.columns) _ columns_iff (
            both_iff (validate_insert_values (length i.columns) i.values) _ rows_iff (
              both_iff (validate_returning_columns qb i.returning)
                (validate_on_conflict qb i.on_conflict)
                (validate_returning_columns_iff qb listed i.returning)
                (validate_on_conflict_iff qb listed i.on_conflict)))) in
        (
          λ h.
              let (t, ((nc, c), ((nr, rs), (r, k)))) = iff.0 h in
              record {
                table = t;
                some_columns = nc;
                columns = c;
                some_rows = nr;
                rows = rs;
                returning = r;
                on_conflict = k;
              },
          λ a. iff.1 (
            a.table,
            ((a.some_columns, a.columns), ((a.some_rows, a.rows), (a.returning, a.on_conflict))),
          ),
        )

    -- With an allowlist `Build` succeeds exactly if the table is a well-formed name, there is at least
    -- one column and one row, every column and every conflict column is a well-formed name of the
    -- list, every row has one value for each column, every RETURNING column is `*` or of the list, and
    -- the constraint of the conflict clause is empty or a well-formed name.
    pub build_insert-IsAllowed : ((q : Query A) × (build i ≡ ok q)) ↔ IsAllowed i
    unfolding build
    build_insert-IsAllowed = (
      λ (q, h). validate_insert_iff.0 (unless_error-eq-ok (validate_insert i) (build_parts i) h).0,
      λ a. (build_parts i, rw (validate_insert_iff.1 a) refl),
    )
