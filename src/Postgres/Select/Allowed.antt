-- ===== src/Postgres/Select/Allowed.antt =====
-- Which queries the validation of `SelectBuilder` lets through when there is an allowlist.
use txova_go_db.Prelude.{
  ◌≡◌, ◌≢◌, refl, ◌↔◌, ◌⊎◌, inl, inr, List, [], ◌∷◌, none, All, Bool-cases, ok, unless_error-eq-ok,
}
use txova_go_db.Text.{Text, text_eq, trim_space}
use txova_go_db.Text.Equality.{text_eq_iff}
use txova_go_db.Postgres.Identifier.{IsName}
use txova_go_db.Postgres.QueryBuilder.{
  BuildError, Query, QueryBuilder, invalid_group_by, invalid_order_by, validate_column_name,
  validate_table_name, star,
}
use txova_go_db.Postgres.QueryBuilder.Allowlist.{
  Any, replaced-eq-none, both_iff, validate_column_name_iff, validate_table_name_iff,
}
use txova_go_db.Postgres.Select.{SelectBuilder, OrderByClause}
use txova_go_db.Postgres.Select.Validate.{
  validate_select_column, validate_select_columns, validate_entry, validate_group_by_columns,
  validate_order_by_columns, validate_select,
}
use txova_go_db.Postgres.Select.Build.{build, build_parts}

-- The column is `*`, or a well-formed name of the allowlist.
abbrev pub IsColumnAllowed : QueryBuilder → Text → Type 0
IsColumnAllowed qb col = (col ≡ star) ⊎ (IsName col × Any col qb.allowed_columns)

-- Without its spaces the entry is empty or an allowed column.
abbrev pub IsEntryAllowed : QueryBuilder → Text → Type 0
IsEntryAllowed qb entry = (trim_space entry ≡ []) ⊎ IsColumnAllowed qb (trim_space entry)

module _ (qb : QueryBuilder) (listed : qb.allowed_columns ≢ []) where
  validate_select_column_iff :
      (col : Text) → (validate_select_column qb col ≡ none) ↔ IsColumnAllowed qb col
  unfolding validate_select_column
  validate_select_column_iff col = elim (Bool-cases (text_eq col star)) [
    | inl e ↦ (λ _. inl ((text_eq_iff col star).0 e), λ _. rw e)
    | inr e ↦ rw e (
      λ h. inr ((validate_column_name_iff qb col listed).0 h),
      elim [
        | inl s ↦ let t = (text_eq_iff col star).1 s in cc
        | inr a ↦ (validate_column_name_iff qb col listed).1 a
      ],
    )
  ]

  validate_select_columns_iff :
      (cols : List Text) → (validate_select_columns qb cols ≡ none) ↔ All (IsColumnAllowed qb) cols
  unfolding validate_select_columns
  validate_select_columns_iff [] = (λ _. tt, λ _. refl)
  validate_select_columns_iff (col ∷ cols) =
      both_iff (validate_select_column qb col) (validate_select_columns qb cols)
        (validate_select_column_iff col) (validate_select_columns_iff cols)

  validate_entry_iff :
      (t : Text) (e : BuildError)
      → (validate_entry qb t e ≡ none) ↔ ((t ≡ []) ⊎ IsColumnAllowed qb t)
  unfolding validate_entry
  validate_entry_iff t e = elim (Bool-cases (text_eq t [])) [
    | inl p ↦ (λ _. inl ((text_eq_iff t []).0 p), λ _. rw p)
    | inr p ↦ elim (Bool-cases (text_eq t star)) [
      | inl q ↦ (λ _. inr (inl ((text_eq_iff t star).0 q)), λ _. rw (p, q))
      | inr q ↦
          rw (p, q)
            (
              λ h. inr (
                  inr (
                    (validate_column_name_iff qb t listed).0
                      ((replaced-eq-none (validate_column_name qb t) e).0 h))),
              elim [
                | inl s ↦ let u = (text_eq_iff t []).1 s in cc
                | inr (inl s) ↦ let u = (text_eq_iff t star).1 s in cc
                | inr (inr a) ↦
                    (replaced-eq-none (validate_column_name qb t) e).1
                      ((validate_column_name_iff qb t listed).1 a)
              ],
            )
    ]
  ]

  validate_group_by_columns_iff :
      (entries : List Text)
      → (validate_group_by_columns qb entries ≡ none) ↔ All (IsEntryAllowed qb) entries
  unfolding validate_group_by_columns
  validate_group_by_columns_iff [] = (λ _. tt, λ _. refl)
  validate_group_by_columns_iff (entry ∷ rest) =
      let t = trim_space entry in
      both_iff (validate_entry qb t (invalid_group_by t)) (validate_group_by_columns qb rest)
        (validate_entry_iff t (invalid_group_by t)) (validate_group_by_columns_iff rest)

  validate_order_by_columns_iff :
      (entries : List OrderByClause)
      → (validate_order_by_columns qb entries ≡ none)
        ↔ All (λ (o : OrderByClause). IsEntryAllowed qb o.column) entries
  unfolding validate_order_by_columns
  validate_order_by_columns_iff [] = (λ _. tt, λ _. refl)
  validate_order_by_columns_iff (entry ∷ rest) =
      let t = trim_space entry.column in
      both_iff (validate_entry qb t (invalid_order_by t)) (validate_order_by_columns qb rest)
        (validate_entry_iff t (invalid_order_by t)) (validate_order_by_columns_iff rest)

-- What a query must be to pass.
pub record IsAllowed {A : Type 0} (s : SelectBuilder A) : Type 0 where
  pub table : IsName s.table
  pub columns : All (IsColumnAllowed s.query_builder) s.columns
  pub group_by : All (IsEntryAllowed s.query_builder) s.group_by
  pub order_by : All (λ (o : OrderByClause). IsEntryAllowed s.query_builder o.column) s.order_by

module _ {A : Type 0} (s : SelectBuilder A) (listed : s.query_builder.allowed_columns ≢ []) where
  validate_select_iff : (validate_select s ≡ none) ↔ IsAllowed s
  unfolding validate_select
  validate_select_iff =
      let qb = s.query_builder in
      let iff = both_iff (validate_table_name s.table) _ (validate_table_name_iff s.table) (
        both_iff (validate_select_columns qb s.columns) _
          (validate_select_columns_iff qb listed s.columns)
          (both_iff (validate_group_by_columns qb s.group_by)
            (validate_order_by_columns qb s.order_by)
            (validate_group_by_columns_iff qb listed s.group_by)
            (validate_order_by_columns_iff qb listed s.order_by))) in
      (
        λ h.
            let (t, (c, (g, o))) = iff.0 h in
            record { table = t; columns = c; group_by = g; order_by = o },
        λ a. iff.1 (a.table, (a.columns, (a.group_by, a.order_by))),
      )

  -- With an allowlist `Build` succeeds exactly if the table is a well-formed name, every column is
  -- `*` or a well-formed name of the list, and so is every entry of GROUP BY and ORDER BY without
  -- its spaces, unless nothing is left of it.
  pub build-IsAllowed : ((q : Query A) × (build s ≡ ok q)) ↔ IsAllowed s
  unfolding build
  build-IsAllowed = (
    λ (q, h). validate_select_iff.0 (unless_error-eq-ok (validate_select s) (build_parts s) h).0,
    λ a. (build_parts s, rw (validate_select_iff.1 a)),
  )
