-- ===== src/Postgres/Select/Setters.antt =====
-- The queries that the methods of `SelectBuilder` make, and their arguments.
use txova_go_db.Prelude.{
  ℕ, ◌≡◌, refl, ◌∙◌, subst, Bool-cases, inl, inr, ◌++◌, List, [], ◌∷◌, All, All-append, length,
  arith,
}
use txova_go_db.Prelude.Int.{ℤ}
use txova_go_db.Text.{Text, codes, Lacks, text_eq}
use txova_go_db.Postgres.Placeholders.{mark, WhereClause}
use txova_go_db.Postgres.Placeholders.Numbering.{count_marks, count_marks-append_plain}
use txova_go_db.Postgres.Placeholders.Clauses.{IsBalanced}
use txova_go_db.Postgres.QueryBuilder.{in_condition, and_clause, or_clause}
use txova_go_db.Postgres.Insert.Values.{raw_row, count_marks-raw_row}
use txova_go_db.Postgres.Select.{
  JoinType, Join, SelectBuilder, PageRequest, SortDirections, select_with_allowlist, columns,
  distinct, add_where, and_where, or_where, where_in, where_not_in, where_like, where_ilike,
  where_null, where_not_null, where_between, add_join, order_by, order_by_asc, order_by_desc, limit,
  offset, page, group_by, having, for_update, for_share,
}
use txova_go_db.Postgres.Select.Numbering.{HasArgs}

-- A column in front of a fixed text.
count_marks-column :
    (column rest : Text) (n : ℕ)
    → Lacks mark column
    → count_marks rest ≡ n
    → count_marks (column ++ rest) ≡ n
count_marks-column column rest n h e = count_marks-append_plain column rest h ∙ e

module _ {A : Type 0} where
  -- The builders that the methods make: the caller gives a condition of its own as many arguments as
  -- it has placeholders, and the columns that a method writes into a condition hold no `?`.
  pub data Built : SelectBuilder A → Type 0 where
    new : (table : Text) (allowed : List Text) → Built (select_with_allowlist table allowed)
    with_columns : {s : SelectBuilder A} (cols : List Text) → Built s → Built (columns cols s)
    with_distinct : {s : SelectBuilder A} → Built s → Built (distinct s)
    with_and :
        {s : SelectBuilder A} (condition : Text) (args : List A)
        → count_marks condition ≡ length args
        → Built s
        → Built (and_where condition args s)
    with_or :
        {s : SelectBuilder A} (condition : Text) (args : List A)
        → count_marks condition ≡ length args
        → Built s
        → Built (or_where condition args s)
    with_in :
        {s : SelectBuilder A} (column : Text) (values : List A)
        → Lacks mark column
        → Built s
        → Built (where_in column values s)
    with_not_in :
        {s : SelectBuilder A} (column : Text) (values : List A)
        → Lacks mark column
        → Built s
        → Built (where_not_in column values s)
    with_like :
        {s : SelectBuilder A} (column : Text) (pat : A)
        → Lacks mark column
        → Built s
        → Built (where_like column pat s)
    with_ilike :
        {s : SelectBuilder A} (column : Text) (pat : A)
        → Lacks mark column
        → Built s
        → Built (where_ilike column pat s)
    with_null :
        {s : SelectBuilder A} (column : Text)
        → Lacks mark column
        → Built s
        → Built (where_null column s)
    with_not_null :
        {s : SelectBuilder A} (column : Text)
        → Lacks mark column
        → Built s
        → Built (where_not_null column s)
    with_between :
        {s : SelectBuilder A} (column : Text) (min_val max_val : A)
        → Lacks mark column
        → Built s
        → Built (where_between column min_val max_val s)
    with_join :
        {s : SelectBuilder A} (t : JoinType) (table condition : Text) (args : List A)
        → count_marks condition ≡ length args
        → Built s
        → Built (add_join t table condition args s)
    with_order :
        {s : SelectBuilder A} (column direction : Text)
        → Built s
        → Built (order_by column direction s)
    with_asc :
        {s : SelectBuilder A} (d : SortDirections) (column : Text)
        → Built s
        → Built (order_by_asc d column s)
    with_desc :
        {s : SelectBuilder A} (d : SortDirections) (column : Text)
        → Built s
        → Built (order_by_desc d column s)
    with_limit : {s : SelectBuilder A} (n : ℤ) → Built s → Built (limit n s)
    with_offset : {s : SelectBuilder A} (n : ℤ) → Built s → Built (offset n s)
    with_page :
        {s : SelectBuilder A} (normalize : PageRequest → PageRequest) (req : PageRequest)
        → Built s
        → Built (page normalize req s)
    with_group : {s : SelectBuilder A} (cols : List Text) → Built s → Built (group_by cols s)
    with_having :
        {s : SelectBuilder A} (condition : Text) (args : List A)
        → count_marks condition ≡ length args
        → Built s
        → Built (having condition args s)
    with_update : {s : SelectBuilder A} → Built s → Built (for_update s)
    with_share : {s : SelectBuilder A} → Built s → Built (for_share s)

  -- The condition of a method is that of IN: the list of its placeholders is written like a row.
  count_marks-in_condition :
      (column op : Text) (values : List A)
      → Lacks mark column
      → Lacks mark op
      → count_marks (in_condition column op (length values)) ≡ length values
  unfolding in_condition raw_row
  count_marks-in_condition column op values hc ho =
      count_marks-append_plain column _ hc
      ∙ count_marks-append_plain op _ ho
      ∙ count_marks-append_plain (codes " ") (raw_row values) (omega arith)
      ∙ count_marks-raw_row values

  add_where-HasArgs :
      (w : WhereClause A) (s : SelectBuilder A)
      → count_marks w.condition ≡ length w.args
      → HasArgs s
      → HasArgs (add_where w s)
  unfolding add_where
  add_where-HasArgs w s e h = record {
    joins = h.joins;
    wheres = All-append _ s.wheres (w ∷ []) h.wheres (e, tt);
    having = h.having;
  }

  keep_parts :
      (s s' : SelectBuilder A)
      → s.joins ≡ s'.joins
      → s.wheres ≡ s'.wheres
      → s.having ≡ s'.having
      → HasArgs s
      → HasArgs s'
  keep_parts s s' js ws hs h = record {
    joins = subst (All (λ (j : Join A). count_marks j.condition ≡ length j.args)) js h.joins;
    wheres = subst IsBalanced ws h.wheres;
    having = subst IsBalanced hs h.having;
  }

  page-HasArgs :
      (normalize : PageRequest → PageRequest) (req : PageRequest) (s : SelectBuilder A)
      → HasArgs s
      → HasArgs (page normalize req s)
  unfolding page
  page-HasArgs normalize req s h = elim (Bool-cases (text_eq (normalize req).sort_field [])) [
    | inl e ↦ rw e (keep_parts s _ refl refl refl h)
    | inr e ↦ rw e (keep_parts s _ refl refl refl h)
  ]

  -- The invariant of the builder: whatever methods are called, every condition of a join, of WHERE
  -- and of HAVING has as many arguments as placeholders, provided that the caller's own conditions do
  -- and the columns of the other methods hold no `?`.
  pub Built-HasArgs : {s : SelectBuilder A} → Built s → HasArgs s
  unfolding select_with_allowlist columns distinct and_where or_where where_in where_not_in
      where_like where_ilike where_null where_not_null where_between add_join order_by order_by_asc
      order_by_desc limit offset group_by having for_update for_share count_marks
  Built-HasArgs (new table allowed) = record { joins = tt; wheres = tt; having = tt }
  Built-HasArgs (with_columns cols b) = keep_parts _ _ refl refl refl (Built-HasArgs b)
  Built-HasArgs (with_distinct b) = keep_parts _ _ refl refl refl (Built-HasArgs b)
  Built-HasArgs (with_and condition args e b) =
      add_where-HasArgs (and_clause condition args) _ e (Built-HasArgs b)
  Built-HasArgs (with_or condition args e b) =
      add_where-HasArgs (or_clause condition args) _ e (Built-HasArgs b)
  Built-HasArgs (with_in column [] hc b) = Built-HasArgs b
  Built-HasArgs (with_in column (v ∷ vs) hc b) =
      add_where-HasArgs _ _
        (count_marks-in_condition column (codes " IN") (v ∷ vs) hc (omega arith)) (Built-HasArgs b)
  Built-HasArgs (with_not_in column [] hc b) = Built-HasArgs b
  Built-HasArgs (with_not_in column (v ∷ vs) hc b) =
      add_where-HasArgs _ _
        (count_marks-in_condition column (codes " NOT IN") (v ∷ vs) hc (omega arith))
        (Built-HasArgs b)
  Built-HasArgs (with_like column pat hc b) =
      add_where-HasArgs _ _ (count_marks-column column (codes " LIKE ?") 1 hc refl)
        (Built-HasArgs b)
  Built-HasArgs (with_ilike column pat hc b) =
      add_where-HasArgs _ _ (count_marks-column column (codes " ILIKE ?") 1 hc refl)
        (Built-HasArgs b)
  Built-HasArgs (with_null column hc b) =
      add_where-HasArgs _ _ (count_marks-column column (codes " IS NULL") 0 hc refl)
        (Built-HasArgs b)
  Built-HasArgs (with_not_null column hc b) =
      add_where-HasArgs _ _ (count_marks-column column (codes " IS NOT NULL") 0 hc refl)
        (Built-HasArgs b)
  Built-HasArgs (with_between column min_val max_val hc b) =
      add_where-HasArgs _ _ (count_marks-column column (codes " BETWEEN ? AND ?") 2 hc refl)
        (Built-HasArgs b)
  Built-HasArgs (with_join {s = s} t table condition args e b) =
      let h = Built-HasArgs b in
      record {
        joins = All-append _ s.joins _ h.joins (e, tt);
        wheres = h.wheres;
        having = h.having;
      }
  Built-HasArgs (with_order column direction b) = keep_parts _ _ refl refl refl (Built-HasArgs b)
  Built-HasArgs (with_asc d column b) = keep_parts _ _ refl refl refl (Built-HasArgs b)
  Built-HasArgs (with_desc d column b) = keep_parts _ _ refl refl refl (Built-HasArgs b)
  Built-HasArgs (with_limit n b) = keep_parts _ _ refl refl refl (Built-HasArgs b)
  Built-HasArgs (with_offset n b) = keep_parts _ _ refl refl refl (Built-HasArgs b)
  Built-HasArgs (with_page {s = s} normalize req b) = page-HasArgs normalize req s (Built-HasArgs b)
  Built-HasArgs (with_group cols b) = keep_parts _ _ refl refl refl (Built-HasArgs b)
  Built-HasArgs (with_having {s = s} condition args e b) =
      let h = Built-HasArgs b in
      record {
        joins = h.joins;
        wheres = h.wheres;
        having = All-append _ s.having _ h.having (e, tt);
      }
  Built-HasArgs (with_update b) = keep_parts _ _ refl refl refl (Built-HasArgs b)
  Built-HasArgs (with_share b) = keep_parts _ _ refl refl refl (Built-HasArgs b)
