-- ===== src/Postgres/Select/Numbering.antt =====
-- The query of `SelectBuilder` as it was written, with its placeholders, and its joins.
use txova_go_db.Prelude.{
  ℕ, ◌+◌, ◌≡◌, refl, ◌++◌, List, [], ◌∷◌, append-nil, append_assoc, length, length-append, All,
  All-append, arith,
}
use txova_go_db.Text.{Text, codes, Lacks}
use txova_go_db.Postgres.Placeholders.{mark}
use txova_go_db.Postgres.Placeholders.Numbering.{
  count_marks, numbered, replace_placeholders_lem, count_marks-append, numbered-append,
  count_marks-Lacks, numbered-Lacks, count_marks-append_plain,
}
use txova_go_db.Postgres.Placeholders.Clauses.{raw_clauses, clause_args, IsBalanced}
use txova_go_db.Postgres.Select.{JoinType, Join, SelectBuilder}
use txova_go_db.Postgres.Select.Build.{
  join_keyword, build_select_clause, join_front, join_loop, build_join_clauses,
  build_group_by_clause, build_tail,
}

join_keyword-Lacks : (t : JoinType) → Lacks mark (join_keyword t)
unfolding join_keyword
join_keyword-Lacks t = ground arith

module _ {A : Type 0} where
  -- The joins with their placeholders as they were written.
  unfoldable pub raw_joins : List (Join A) → Text
  raw_joins [] = []
  raw_joins (j ∷ rest) = join_front j ++ (j.condition ++ raw_joins rest)

  unfoldable pub join_args : List (Join A) → List A
  join_args [] = []
  join_args (j ∷ rest) = j.args ++ join_args rest

  -- The query with its placeholders as they were written.
  unfoldable pub raw_select : SelectBuilder A → Text
  raw_select s =
      build_select_clause s
      ++ (raw_joins s.joins
          ++ (raw_clauses (codes " WHERE ") s.wheres
              ++ (build_group_by_clause s.group_by
                  ++ (raw_clauses (codes " HAVING ") s.having ++ build_tail s))))

  unfoldable pub select_args : SelectBuilder A → List A
  select_args s = join_args s.joins ++ (clause_args s.wheres ++ clause_args s.having)

  -- No name or direction of the query holds a `?`. The table needs no such condition: `Build` checks it.
  pub record HasNoMarks (s : SelectBuilder A) : Type 0 where
    pub columns : All (Lacks mark) s.columns
    pub join_tables : All (λ (j : Join A). Lacks mark j.table) s.joins
    pub group_by : All (Lacks mark) s.group_by
    pub order_by : All (λ o. Lacks mark o.column × Lacks mark o.direction) s.order_by

  -- Every condition has an argument for each of its placeholders.
  pub record HasArgs (s : SelectBuilder A) : Type 0 where
    pub joins : All (λ (j : Join A). count_marks j.condition ≡ length j.args) s.joins
    pub wheres : IsBalanced s.wheres
    pub having : IsBalanced s.having

  join_front-Lacks : (j : Join A) → Lacks mark j.table → Lacks mark (join_front j)
  unfolding join_front
  join_front-Lacks j h = All-append _ (codes " ") _ (omega arith) (
      All-append _ (join_keyword j.join_type) _ (join_keyword-Lacks j.join_type)
        (All-append _ (codes " ") _ (omega arith) (All-append _ j.table _ h (omega arith))))

  join_loop-raw :
      (js : List (Join A)) (sb : Text) (args : List A) (n : ℕ)
      → All (λ (j : Join A). Lacks mark j.table) js
      → join_loop js sb args n
        ≡ (sb ++ numbered n (raw_joins js), args ++ join_args js, n + count_marks (raw_joins js))
  unfolding join_loop raw_joins join_args
  join_loop-raw [] sb args n h = unfold numbered count_marks in simp append-nil (ground arith)
  join_loop-raw (j ∷ rest) sb args n (hj, hs) =
      simp
        (
          λ (sb : Text) (args : List A) (n : ℕ). join_loop-raw rest sb args n hs,
          replace_placeholders_lem,
          numbered-append,
          count_marks-append,
          numbered-Lacks (join_front j) n (join_front-Lacks j hj),
          count_marks-Lacks (join_front j) (join_front-Lacks j hj),
          append_assoc,
        )
        (ground arith)

  pub build_join_clauses-raw :
      (js : List (Join A)) (n : ℕ)
      → All (λ (j : Join A). Lacks mark j.table) js
      → build_join_clauses js n
        ≡ (numbered n (raw_joins js), join_args js, n + count_marks (raw_joins js))
  unfolding build_join_clauses
  build_join_clauses-raw js n h = join_loop-raw js [] [] n h

  pub raw_joins-balanced :
      (js : List (Join A))
      → All (λ (j : Join A). Lacks mark j.table) js
      → All (λ (j : Join A). count_marks j.condition ≡ length j.args) js
      → count_marks (raw_joins js) ≡ length (join_args js)
  unfolding raw_joins join_args
  raw_joins-balanced [] h b = unfold count_marks in refl
  raw_joins-balanced (j ∷ rest) (hj, hs) (bj, bs) = omega (
    arith,
    count_marks-append_plain (join_front j) (j.condition ++ raw_joins rest) (join_front-Lacks j hj),
    count_marks-append j.condition (raw_joins rest),
    length-append j.args (join_args rest),
    raw_joins-balanced rest hs bs,
  )
