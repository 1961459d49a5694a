-- ===== src/Postgres/Placeholders.antt =====
-- `replacePlaceholders` of postgres/query.go, and the WHERE and HAVING clauses that it numbers.
pub mod Numbering
pub mod Clauses
pub mod Parameters
use txova_go_db.Prelude.{
  ℕ, zero, suc, ◌+◌, ◌++◌, Bool, true, false, List, [], ◌∷◌, ltb, ◌==◌, if◌then◌else◌,
}
use txova_go_db.Text.{Text, codes}
use txova_go_db.Text.Decimal.{decimal}

-- The code point of the placeholder `?`.
abbrev pub mark : ℕ
mark = b'?'

-- The loop over the code points, with the builder's text and the next index.
replace_loop : Text → Text → ℕ → Text × ℕ
replace_loop [] result index = (result, index)
replace_loop (ch ∷ rest) result index =
    let hit = ch == mark in
    replace_loop rest (result ++ (if hit then b'$' ∷ decimal index else ch ∷ []))
      (if hit then index + 1 else index)

unfoldable pub replace_placeholders : Text → ℕ → Text × ℕ
unfolding replace_loop
replace_placeholders condition start_index = replace_loop condition [] start_index

-- A condition with its arguments.
pub record WhereClause (A : Type 0) : Type 0 where
  pub condition : Text
  pub args : List A
  pub is_or : Bool

-- What is written in front of the clause at index `i`.
connective : ℕ → Bool → Text
connective i is_or = if ltb 0 i then (if is_or then codes " OR " else codes " AND ") else []

module _ {A : Type 0} where
  -- One round for each clause: the text so far, the arguments so far, the next index.
  condition_loop : List (WhereClause A) → ℕ → Text → List A → ℕ → Text × List A × ℕ
  condition_loop [] i sb args arg_index = (sb, args, arg_index)
  condition_loop (w ∷ rest) i sb args arg_index =
      let replaced = replace_placeholders w.condition arg_index in
      condition_loop rest (i + 1) (sb ++ connective i w.is_or ++ replaced.0) (args ++ w.args)
        replaced.1

  unfoldable pub build_condition_clauses : List (WhereClause A) → Text → ℕ → Text × List A × ℕ
  unfolding condition_loop connective
  build_condition_clauses [] keyword arg_index = ([], [], arg_index)
  build_condition_clauses (w ∷ rest) keyword arg_index =
      condition_loop (w ∷ rest) 0 keyword [] arg_index
