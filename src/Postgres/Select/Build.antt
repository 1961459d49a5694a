-- ===== src/Postgres/Select/Build.antt =====
-- `Build` of `SelectBuilder` in postgres/query.go, clause by clause.
use txova_go_db.Prelude.{
  ℕ, ◌++◌, Bool, List, [], ◌∷◌, Option, none, some, map, length, ltb, if◌then◌else◌, Result, ok,
  err, unless_error,
}
use txova_go_db.Prelude.Int.{ℤ}
use txova_go_db.Text.{Text, codes, text_eq, join, to_upper}
use txova_go_db.Text.Decimal.{decimal_ℤ}
use txova_go_db.Postgres.Placeholders.{replace_placeholders, build_condition_clauses}
use txova_go_db.Postgres.QueryBuilder.{BuildError, Query, Panicking, returned, panicked}
use txova_go_db.Postgres.Select.{
  JoinType, inner_join, left_join, right_join, Join, OrderByClause, SelectBuilder,
}
use txova_go_db.Postgres.Select.Validate.{validate_select}

unfoldable pub join_keyword : JoinType → Text
join_keyword inner_join = codes "INNER JOIN"
join_keyword left_join = codes "LEFT JOIN"
join_keyword right_join = codes "RIGHT JOIN"

unfoldable pub order_part : OrderByClause → Text
order_part o =
    let dir = to_upper o.direction in
    o.column ++ (codes " " ++ (if text_eq dir [] then codes "ASC" else dir))

unfoldable pub build_order_by_clause : List OrderByClause → Text
build_order_by_clause [] = []
build_order_by_clause (o ∷ rest) =
    codes " ORDER BY " ++ join (map order_part (o ∷ rest)) (codes ", ")

unfoldable pub build_limit_offset_clause : Option ℤ → Option ℤ → Text
build_limit_offset_clause limit offset =
    (elim limit [ none ↦ [] | some n ↦ codes " LIMIT " ++ decimal_ℤ n ])
    ++ (elim offset [ none ↦ [] | some n ↦ codes " OFFSET " ++ decimal_ℤ n ])

unfoldable pub build_locking_clause : Bool → Bool → Text
build_locking_clause for_update for_share =
    if for_update then codes " FOR UPDATE" else if for_share then codes " FOR SHARE" else []

unfoldable pub build_group_by_clause : List Text → Text
build_group_by_clause group_by =
    if ltb 0 (length group_by) then codes " GROUP BY " ++ join group_by (codes ", ") else []

module _ {A : Type 0} where
  unfoldable pub build_select_clause : SelectBuilder A → Text
  build_select_clause s =
      codes "SELECT "
      ++ ((if s.distinct then codes "DISTINCT " else [])
          ++ ((if ltb 0 (length s.columns) then join s.columns (codes ", ") else codes "*")
              ++ (codes " FROM " ++ s.table)))

  -- What is written in front of a condition.
  unfoldable pub join_front : Join A → Text
  join_front j = codes " " ++ (join_keyword j.join_type ++ (codes " " ++ (j.table ++ codes " ON ")))

  unfoldable pub join_loop : List (Join A) → Text → List A → ℕ → Text × List A × ℕ
  join_loop [] sb args arg_index = (sb, args, arg_index)
  join_loop (j ∷ rest) sb args arg_index =
      let replaced = replace_placeholders j.condition arg_index in
      join_loop rest (sb ++ (join_front j ++ replaced.0)) (args ++ j.args) replaced.1

  unfoldable pub build_join_clauses : List (Join A) → ℕ → Text × List A × ℕ
  unfolding join_loop
  build_join_clauses joins arg_index = join_loop joins [] [] arg_index

  -- What stands behind the last condition: ORDER BY, LIMIT and OFFSET, and the lock.
  unfoldable pub build_tail : SelectBuilder A → Text
  build_tail s =
      build_order_by_clause s.order_by
      ++ (build_limit_offset_clause s.limit s.offset
          ++ build_locking_clause s.for_update s.for_share)

  unfoldable pub build_parts : SelectBuilder A → Query A
  build_parts s =
      let (join_clause, join_args, after_joins) = build_join_clauses s.joins 1 in
      let (where_clause, where_args, after_where) =
        build_condition_clauses s.wheres (codes " WHERE ") after_joins in
      let (having_clause, having_args, _) =
        build_condition_clauses s.having (codes " HAVING ") after_where in
      (
        build_select_clause s
            ++ (join_clause
                ++ (where_clause
                    ++ (build_group_by_clause s.group_by ++ (having_clause ++ build_tail s)))),
        join_args ++ (where_args ++ having_args),
      )

  unfoldable pub build : SelectBuilder A → Result BuildError (Query A)
  build s = unless_error (validate_select s) (build_parts s)

  unfoldable pub must_build : SelectBuilder A → Panicking (Query A)
  must_build s = elim (build s) [ ok q ↦ returned q | err e ↦ panicked e ]

  unfoldable pub sql : SelectBuilder A → Text
  sql s = elim (build s) [ ok (text, _) ↦ text | err _ ↦ [] ]

  unfoldable pub args : SelectBuilder A → List A
  args s = elim (build s) [ ok (_, values) ↦ values | err _ ↦ [] ]
