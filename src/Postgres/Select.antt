-- ===== src/Postgres/Select.antt =====
-- `SelectBuilder` of postgres/query.go: its fields and the methods that set them.
pub mod Validate
pub mod Build
pub mod Plain
pub mod Allowed
pub mod Numbering
pub mod Setters
pub mod Refinement
mod Tests
use txova_go_db.Prelude.{
  ℕ, ◌++◌, Bool, true, false, List, [], ◌∷◌, Option, none, some, length, ltb, if◌then◌else◌, not,
}
use txova_go_db.Prelude.Int.{ℤ}
use txova_go_db.Text.{Text, codes, text_eq}
use txova_go_db.Postgres.Placeholders.{WhereClause}
use txova_go_db.Postgres.QueryBuilder.{
  QueryBuilder, new_query_builder, in_condition, and_clause, or_clause,
}

pub data JoinType : Type 0 where
  inner_join left_join right_join : JoinType

pub record Join (A : Type 0) : Type 0 where
  pub join_type : JoinType
  pub table : Text
  pub condition : Text
  pub args : List A

pub record OrderByClause : Type 0 where
  pub column : Text
  pub direction : Text

pub record SelectBuilder (A : Type 0) : Type 0 where
  pub query_builder : QueryBuilder
  pub table : Text
  pub columns : List Text
  pub distinct : Bool
  pub wheres : List (WhereClause A)
  pub joins : List (Join A)
  pub order_by : List OrderByClause
  pub limit : Option ℤ
  pub offset : Option ℤ
  pub group_by : List Text
  pub having : List (WhereClause A)
  pub for_update : Bool
  pub for_share : Bool

-- `pagination.PageRequest`
pub record PageRequest : Type 0 where
  pub limit : ℤ
  pub offset : ℤ
  pub sort_field : Text
  pub sort_dir : Text

-- `pagination.SortAsc` and `pagination.SortDesc`, with the texts that the package gives them.
pub record SortDirections : Type 0 where
  pub sort_asc : Text
  pub sort_desc : Text

module _ {A : Type 0} where
  unfoldable pub select_with_allowlist : Text → List Text → SelectBuilder A
  select_with_allowlist table allowed_columns = record {
    query_builder = new_query_builder allowed_columns;
    table = table;
    columns = [];
    distinct = false;
    wheres = [];
    joins = [];
    order_by = [];
    limit = none;
    offset = none;
    group_by = [];
    having = [];
    for_update = false;
    for_share = false;
  }

  unfoldable pub select : Text → SelectBuilder A
  unfolding select_with_allowlist
  select table = select_with_allowlist table []

  unfoldable pub columns : List Text → SelectBuilder A → SelectBuilder A
  columns cols s = record s { columns = s.columns ++ cols }

  unfoldable pub distinct : SelectBuilder A → SelectBuilder A
  distinct s = record s { distinct = true }

  add_where : WhereClause A → SelectBuilder A → SelectBuilder A
  add_where w s = record s { wheres = s.wheres ++ w ∷ [] }

  unfoldable pub and_where : Text → List A → SelectBuilder A → SelectBuilder A
  unfolding add_where
  and_where condition args = add_where (and_clause condition args)

  unfoldable pub or_where : Text → List A → SelectBuilder A → SelectBuilder A
  unfolding add_where
  or_where condition args = add_where (or_clause condition args)

  unfoldable pub where_in : Text → List A → SelectBuilder A → SelectBuilder A
  unfolding add_where
  where_in column [] s = s
  where_in column (v ∷ vs) s =
      add_where (and_clause (in_condition column (codes " IN") (length (v ∷ vs))) (v ∷ vs)) s

  unfoldable pub where_not_in : Text → List A → SelectBuilder A → SelectBuilder A
  unfolding add_where
  where_not_in column [] s = s
  where_not_in column (v ∷ vs) s =
      add_where (and_clause (in_condition column (codes " NOT IN") (length (v ∷ vs))) (v ∷ vs)) s

  -- The pattern of LIKE and ILIKE, as the argument that it becomes.
  unfoldable pub where_like : Text → A → SelectBuilder A → SelectBuilder A
  unfolding add_where
  where_like column pat = add_where (and_clause (column ++ codes " LIKE ?") (pat ∷ []))

  unfoldable pub where_ilike : Text → A → SelectBuilder A → SelectBuilder A
  unfolding add_where
  where_ilike column pat = add_where (and_clause (column ++ codes " ILIKE ?") (pat ∷ []))

  unfoldable pub where_null : Text → SelectBuilder A → SelectBuilder A
  unfolding add_where
  where_null column = add_where (and_clause (column ++ codes " IS NULL") [])

  unfoldable pub where_not_null : Text → SelectBuilder A → SelectBuilder A
  unfolding add_where
  where_not_null column = add_where (and_clause (column ++ codes " IS NOT NULL") [])

  unfoldable pub where_between : Text → A → A → SelectBuilder A → SelectBuilder A
  unfolding add_where
  where_between column min_val max_val =
      add_where (and_clause (column ++ codes " BETWEEN ? AND ?") (min_val ∷ max_val ∷ []))

  -- `Join`, `LeftJoin` and `RightJoin`, by the type that each of them writes.
  unfoldable pub add_join : JoinType → Text → Text → List A → SelectBuilder A → SelectBuilder A
  add_join t table condition args s = record s {
    joins =
        s.joins ++ record { join_type = t; table = table; condition = condition; args = args } ∷ [];
  }

  unfoldable pub order_by : Text → Text → SelectBuilder A → SelectBuilder A
  order_by column direction s = record s {
    order_by = s.order_by ++ record { column = column; direction = direction } ∷ [];
  }

  unfoldable pub order_by_asc : SortDirections → Text → SelectBuilder A → SelectBuilder A
  unfolding order_by
  order_by_asc d column = order_by column d.sort_asc

  unfoldable pub order_by_desc : SortDirections → Text → SelectBuilder A → SelectBuilder A
  unfolding order_by
  order_by_desc d column = order_by column d.sort_desc

  unfoldable pub limit : ℤ → SelectBuilder A → SelectBuilder A
  limit n s = record s { limit = some n }

  unfoldable pub offset : ℤ → SelectBuilder A → SelectBuilder A
  offset n s = record s { offset = some n }

  -- `Normalize` belongs to the package pagination and is an argument.
  unfoldable pub page :
      (PageRequest → PageRequest) → PageRequest → SelectBuilder A → SelectBuilder A
  page normalize req s =
      let n = normalize req in
      let paged = record s { limit = some n.limit; offset = some n.offset } in
      if not (text_eq n.sort_field [])
      then record paged {
        order_by = s.order_by ++ record { column = n.sort_field; direction = n.sort_dir } ∷ [];
      }
      else paged

  unfoldable pub group_by : List Text → SelectBuilder A → SelectBuilder A
  group_by cols s = record s { group_by = s.group_by ++ cols }

  unfoldable pub having : Text → List A → SelectBuilder A → SelectBuilder A
  having condition args s = record s { having = s.having ++ and_clause condition args ∷ [] }

  unfoldable pub for_update : SelectBuilder A → SelectBuilder A
  for_update s = record s { for_update = true; for_share = false }

  unfoldable pub for_share : SelectBuilder A → SelectBuilder A
  for_share s = record s { for_share = true; for_update = false }
