-- ===== src/Postgres/Update/Allowed.antt =====
-- Which statements the validation of `UpdateBuilder` lets through when there is an allowlist.
use txova_go_db.Prelude.{
  ◌≡◌, ◌≢◌, refl, ◌↔◌, List, [], ◌∷◌, none, some, All, arith, ok, unless_error-eq-ok, length, ltb,
  if◌then◌else◌,
}
use txova_go_db.Text.{Text}
use txova_go_db.Postgres.Identifier.{IsName}
use txova_go_db.Postgres.QueryBuilder.{
  Query, QueryBuilder, no_sets, invalid_returning, validate_column_name, validate_table_name,
  replaced,
}
use txova_go_db.Postgres.QueryBuilder.Allowlist.{
  IsListed, validate_column_name_iff, validate_table_name_iff, replaced-eq-none, both_iff,
}
use txova_go_db.Postgres.Update.{
  SetClause, UpdateBuilder, validate_returning, validate_sets, validate_update, build, build_parts,
}

-- What a statement must be to pass.
pub record IsAllowed {A : Type 0} (u : UpdateBuilder A) : Type 0 where
  pub table : IsName u.table
  pub sets : u.sets ≢ []
  pub columns : All (λ (s : SetClause A). IsListed u.query_builder s.column) u.sets
  pub returning : All (IsListed u.query_builder) u.returning

module _ (qb : QueryBuilder) (listed : qb.allowed_columns ≢ []) where
  validate_returning_iff :
      (cols : List Text) → (validate_returning qb cols ≡ none) ↔ All (IsListed qb) cols
  unfolding validate_returning
  validate_returning_iff [] = (λ _. tt, λ _. refl)
  validate_returning_iff (col ∷ cols) =
      let check = validate_column_name_iff qb col listed in
      let wrapped = replaced-eq-none (validate_column_name qb col) (invalid_returning col) in
      both_iff (replaced (validate_column_name qb col) (invalid_returning col))
        (validate_returning qb cols) (λ h. check.0 (wrapped.0 h), λ a. wrapped.1 (check.1 a))
        (validate_returning_iff cols)

  validate_sets_iff :
      {A : Type 0} (sets : List (SetClause A))
      → (validate_sets qb sets ≡ none) ↔ All (λ (s : SetClause A). IsListed qb s.column) sets
  unfolding validate_sets
  validate_sets_iff [] = (λ _. tt, λ _. refl)
  validate_sets_iff (s ∷ sets) =
      both_iff (validate_column_name qb s.column) (validate_sets qb sets)
        (validate_column_name_iff qb s.column listed) (validate_sets_iff sets)

sets_check_iff :
    {A : Type 0} (sets : List (SetClause A))
    → ((if ltb 0 (length sets) then none else some no_sets) ≡ none) ↔ (sets ≢ [])
sets_check_iff [] = (λ h. cc, λ h. absurd (h refl))
sets_check_iff (s ∷ sets) = (λ h e. cc, λ h. ground arith)

module _ {A : Type 0} (u : UpdateBuilder A) (listed : u.query_builder.allowed_columns ≢ []) where
  validate_update_iff : (validate_update u ≡ none) ↔ IsAllowed u
  unfolding validate_update
  validate_update_iff =
      let qb = u.query_builder in
      let iff = both_iff (validate_table_name u.table) _ (validate_table_name_iff u.table) (
        both_iff (if ltb 0 (length u.sets) then none else some no_sets) _ (sets_check_iff u.sets) (
          both_iff (validate_sets qb u.sets) (validate_returning qb u.returning)
            (validate_sets_iff qb listed u.sets) (validate_returning_iff qb listed u.returning))) in
      (
        λ h.
            let (t, (n, (c, r))) = iff.0 h in
            record { table = t; sets = n; columns = c; returning = r },
        λ a. iff.1 (a.table, (a.sets, (a.columns, a.returning))),
      )

  -- With an allowlist `Build` succeeds exactly if the table is a well-formed name, at least one
  -- column is assigned, and every assigned and every returned column is a well-formed name of the
  -- list.
  pub build_update-IsAllowed : ((q : Query A) × (build u ≡ ok q)) ↔ IsAllowed u
  unfolding build
  build_update-IsAllowed = (
    λ (q, h). validate_update_iff.0 (unless_error-eq-ok (validate_update u) (build_parts u) h).0,
    λ a. (build_parts u, rw (validate_update_iff.1 a)),
  )
