-- ===== src/Postgres/Select/Plain.antt =====
-- The clauses of a SELECT that hold no placeholder.
use txova_go_db.Prelude.{
  ◌++◌, Bool, true, false, List, [], ◌∷◌, Option, none, some, map, All, All-append, arith, length,
  ltb, if◌then◌else◌,
}
use txova_go_db.Prelude.Int.{ℤ}
use txova_go_db.Text.{Text, codes, join, to_upper, text_eq, Lacks}
use txova_go_db.Text.Equality.{join-Lacks, to_upper-Lacks}
use txova_go_db.Text.Decimal.{decimal_ℤ, decimal_ℤ-Lacks}
use txova_go_db.Postgres.Placeholders.{mark}
use txova_go_db.Postgres.QueryBuilder.Plain.{if-Lacks}
use txova_go_db.Postgres.Select.{OrderByClause, SelectBuilder}
use txova_go_db.Postgres.Select.Build.{
  order_part, build_select_clause, build_order_by_clause, build_limit_offset_clause,
  build_locking_clause, build_group_by_clause, build_tail,
}

pub build_select_clause-Lacks :
    {A : Type 0} (s : SelectBuilder A)
    → All (Lacks mark) s.columns
    → Lacks mark s.table
    → Lacks mark (build_select_clause s)
unfolding build_select_clause
build_select_clause-Lacks s hc ht = All-append _ (codes "SELECT ") _ (omega arith) (
    All-append _ (if s.distinct then codes "DISTINCT " else []) _
      (if-Lacks s.distinct (codes "DISTINCT ") [] (omega arith) tt)
      (All-append _ (if ltb 0 (length s.columns) then join s.columns (codes ", ") else codes "*") _
        (if-Lacks (ltb 0 (length s.columns)) (join s.columns (codes ", ")) (codes "*")
          (join-Lacks mark s.columns (codes ", ") hc (omega arith)) (omega arith))
        (All-append _ (codes " FROM ") _ (omega arith) ht)))

pub build_group_by_clause-Lacks :
    (cols : List Text) → All (Lacks mark) cols → Lacks mark (build_group_by_clause cols)
unfolding build_group_by_clause
build_group_by_clause-Lacks cols h =
    if-Lacks (ltb 0 (length cols)) (codes " GROUP BY " ++ join cols (codes ", ")) []
      (All-append _ (codes " GROUP BY ") _ (omega arith)
        (join-Lacks mark cols (codes ", ") h (omega arith)))
      tt

order_part-Lacks :
    (o : OrderByClause) → Lacks mark o.column → Lacks mark o.direction → Lacks mark (order_part o)
unfolding order_part
order_part-Lacks o hc hd = All-append _ o.column _ hc (
    All-append _ (codes " ") _ (omega arith) (
      if-Lacks (text_eq (to_upper o.direction) []) (codes "ASC") (to_upper o.direction)
        (omega arith) (to_upper-Lacks mark o.direction (omega arith) hd)))

order_parts-Lacks :
    (os : List OrderByClause)
    → All (λ o. Lacks mark o.column × Lacks mark o.direction) os
    → All (Lacks mark) (map order_part os)
order_parts-Lacks [] h = tt
order_parts-Lacks (o ∷ os) ((hc, hd), hs) = (order_part-Lacks o hc hd, order_parts-Lacks os hs)

build_order_by_clause-Lacks :
    (os : List OrderByClause)
    → All (λ o. Lacks mark o.column × Lacks mark o.direction) os
    → Lacks mark (build_order_by_clause os)
unfolding build_order_by_clause
build_order_by_clause-Lacks [] h = tt
build_order_by_clause-Lacks (o ∷ os) h = All-append _ (codes " ORDER BY ") _ (omega arith) (
    join-Lacks mark (map order_part (o ∷ os)) (codes ", ") (order_parts-Lacks (o ∷ os) h)
      (omega arith))

build_limit_offset_clause-Lacks :
    (limit offset : Option ℤ) → Lacks mark (build_limit_offset_clause limit offset)
unfolding build_limit_offset_clause
build_limit_offset_clause-Lacks none none = tt
build_limit_offset_clause-Lacks none (some n) =
    All-append _ (codes " OFFSET ") _ (omega arith) (decimal_ℤ-Lacks mark n (omega arith))
build_limit_offset_clause-Lacks (some m) none =
    All-append _ (codes " LIMIT " ++ decimal_ℤ m) _
      (All-append _ (codes " LIMIT ") _ (omega arith) (decimal_ℤ-Lacks mark m (omega arith))) tt
build_limit_offset_clause-Lacks (some m) (some n) =
    All-append _ (codes " LIMIT " ++ decimal_ℤ m) _
      (All-append _ (codes " LIMIT ") _ (omega arith) (decimal_ℤ-Lacks mark m (omega arith)))
      (All-append _ (codes " OFFSET ") _ (omega arith) (decimal_ℤ-Lacks mark n (omega arith)))

build_locking_clause-Lacks :
    (for_update for_share : Bool) → Lacks mark (build_locking_clause for_update for_share)
unfolding build_locking_clause
build_locking_clause-Lacks true b = omega arith
build_locking_clause-Lacks false true = omega arith
build_locking_clause-Lacks false false = tt

pub build_tail-Lacks :
    {A : Type 0} (s : SelectBuilder A)
    → All (λ o. Lacks mark o.column × Lacks mark o.direction) s.order_by
    → Lacks mark (build_tail s)
unfolding build_tail
build_tail-Lacks s h =
    All-append _ (build_order_by_clause s.order_by) _ (build_order_by_clause-Lacks s.order_by h) (
      All-append _ (build_limit_offset_clause s.limit s.offset) _
        (build_limit_offset_clause-Lacks s.limit s.offset)
        (build_locking_clause-Lacks s.for_update s.for_share))
