-- ===== src/Postgres/Placeholders/Clauses.antt =====
-- The loop over the conditions against the text that they spell with their placeholders unnumbered.
use txova_go_db.Prelude.{
  ℕ, ◌+◌, ◌≡◌, refl, ◌++◌, Bool, List, [], ◌∷◌, append-nil, append_assoc, length, length-append,
  All, arith,
}
use txova_go_db.Text.{Text, Lacks}
use txova_go_db.Postgres.Placeholders.{
  mark, WhereClause, connective, condition_loop, build_condition_clauses,
}
use txova_go_db.Postgres.Placeholders.Numbering.{
  count_marks, numbered, replace_placeholders_lem, count_marks-append, numbered-append,
  count_marks-Lacks, numbered-Lacks,
}

connective-Lacks : (i : ℕ) (is_or : Bool) → Lacks mark (connective i is_or)
unfolding connective
connective-Lacks i is_or = ground arith

module _ {A : Type 0} where
  -- The conditions with their connectives, from the one at index `i` on.
  pub raw_conditions : ℕ → List (WhereClause A) → Text
  raw_conditions i [] = []
  raw_conditions i (w ∷ rest) = connective i w.is_or ++ (w.condition ++ raw_conditions (i + 1) rest)

  pub clause_args : List (WhereClause A) → List A
  clause_args [] = []
  clause_args (w ∷ rest) = w.args ++ clause_args rest

  -- The keyword and the conditions, or nothing.
  unfoldable pub raw_clauses : Text → List (WhereClause A) → Text
  unfolding raw_conditions connective
  raw_clauses keyword [] = []
  raw_clauses keyword (w ∷ rest) = keyword ++ raw_conditions 0 (w ∷ rest)

  -- Every condition has an argument for each of its placeholders.
  abbrev pub IsBalanced : List (WhereClause A) → Type 0
  IsBalanced = All (λ w. count_marks w.condition ≡ length w.args)

  condition_loop-raw :
      (ws : List (WhereClause A)) (i : ℕ) (sb : Text) (args : List A) (n : ℕ)
      → condition_loop ws i sb args n ≡ (
        sb ++ numbered n (raw_conditions i ws),
        args ++ clause_args ws,
        n + count_marks (raw_conditions i ws),
      )
  unfolding condition_loop raw_conditions clause_args
  condition_loop-raw [] i sb args n = unfold numbered count_marks in simp append-nil (ground arith)
  condition_loop-raw (w ∷ rest) i sb args n =
      simp
        (
          condition_loop-raw rest,
          replace_placeholders_lem,
          numbered-append,
          count_marks-append,
          numbered-Lacks (connective i w.is_or) n (connective-Lacks i w.is_or),
          count_marks-Lacks (connective i w.is_or) (connective-Lacks i w.is_or),
          append_assoc,
        )
        (ground arith)

  -- The clauses of a keyword: numbered as one text, with the arguments in order.
  pub build_condition_clauses_lem :
      (ws : List (WhereClause A)) (keyword : Text) (n : ℕ)
      → Lacks mark keyword
      → build_condition_clauses ws keyword n ≡ (
        numbered n (raw_clauses keyword ws),
        clause_args ws,
        n + count_marks (raw_clauses keyword ws),
      )
  unfolding build_condition_clauses raw_clauses clause_args
  build_condition_clauses_lem [] keyword n h = unfold numbered count_marks in ground arith
  build_condition_clauses_lem (w ∷ rest) keyword n h =
      simp
        (
          condition_loop-raw (w ∷ rest) 0 keyword [] n,
          numbered-append,
          count_marks-append,
          numbered-Lacks keyword n h,
          count_marks-Lacks keyword h,
        )
        (ground arith)

  raw_conditions-balanced :
      (ws : List (WhereClause A)) (i : ℕ)
      → IsBalanced ws
      → count_marks (raw_conditions i ws) ≡ length (clause_args ws)
  unfolding raw_conditions clause_args
  raw_conditions-balanced [] i h = unfold count_marks in refl
  raw_conditions-balanced (w ∷ rest) i (hw, hs) = omega (
    arith,
    count_marks-append (connective i w.is_or) (w.condition ++ raw_conditions (i + 1) rest),
    count_marks-append w.condition (raw_conditions (i + 1) rest),
    count_marks-Lacks (connective i w.is_or) (connective-Lacks i w.is_or),
    raw_conditions-balanced rest (i + 1) hs,
    length-append w.args (clause_args rest),
  )

  pub raw_clauses-balanced :
      (ws : List (WhereClause A)) (keyword : Text)
      → Lacks mark keyword
      → IsBalanced ws
      → count_marks (raw_clauses keyword ws) ≡ length (clause_args ws)
  unfolding raw_clauses
  raw_clauses-balanced [] keyword hk h = unfold count_marks clause_args in refl
  raw_clauses-balanced (w ∷ rest) keyword hk h = omega (
    arith,
    count_marks-append keyword (raw_conditions 0 (w ∷ rest)),
    count_marks-Lacks keyword hk,
    raw_conditions-balanced (w ∷ rest) 0 h,
  )
