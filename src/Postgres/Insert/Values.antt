-- ===== src/Postgres/Insert/Values.antt =====
-- The VALUES clause of `InsertBuilder` against rows of `?`.
use txova_go_db.Prelude.{
  ℕ, zero, suc, ◌+◌, ◌*◌, ◌≡◌, refl, ap, ◌++◌, List, [], ◌∷◌, map, length, length-append, replicate,
  arith, append_assoc, none, then_check-eq-none,
}
use txova_go_db.Text.{Text, codes, join, tail_of_join, Lacks}
use txova_go_db.Postgres.Placeholders.{mark}
use txova_go_db.Postgres.Placeholders.Numbering.{
  count_marks, numbered, count_marks-append, numbered-append, numbered-append_plain,
  count_marks-append_plain,
}
use txova_go_db.Postgres.Insert.{
  row_error, validate_rows, validate_insert_values, row_loop, rows_loop, build_values_clause,
}

-- `(?, …, ?)`
unfoldable pub raw_row : {A : Type 0} → List A → Text
raw_row row = codes "(" ++ (join (replicate (length row) (codes "?")) (codes ", ") ++ codes ")")

abbrev comma : Text
comma = codes ", "

comma-Lacks : Lacks mark comma
comma-Lacks = omega arith

-- `?, ?, …` behind the first one.
abbrev marks_tail : ℕ → Text
marks_tail n = tail_of_join comma (replicate n (codes "?"))

count_marks-marks_tail : (n : ℕ) → count_marks (marks_tail n) ≡ n
unfolding tail_of_join count_marks
count_marks-marks_tail zero = refl
count_marks-marks_tail (suc n) = omega (arith, count_marks-marks_tail n)

module _ {A : Type 0} where
  row_loop-next : (row : List A) (i : ℕ) → (row_loop row i).1 ≡ i + length row
  unfolding row_loop
  row_loop-next [] i = omega arith
  row_loop-next (v ∷ vs) i = omega (arith, row_loop-next vs (i + 1))

  row_loop-tail :
      (row : List A) (i : ℕ)
      → tail_of_join comma (row_loop row i).0 ≡ numbered i (marks_tail (length row))
  unfolding row_loop tail_of_join numbered
  row_loop-tail [] i = refl
  row_loop-tail (v ∷ vs) i = simp (row_loop-tail vs (i + 1)) refl

  row_loop-join :
      (row : List A) (i : ℕ)
      → codes "(" ++ (join (row_loop row i).0 comma ++ codes ")") ≡ numbered i (raw_row row)
  unfolding row_loop raw_row join numbered
  row_loop-join [] i = refl
  row_loop-join (v ∷ vs) i =
      simp
        (
          row_loop-tail vs (i + 1),
          numbered-append (marks_tail (length vs)) (codes ")") (i + 1),
          append_assoc,
        )
        refl

  pub count_marks-raw_row : (row : List A) → count_marks (raw_row row) ≡ length row
  unfolding raw_row join count_marks
  count_marks-raw_row [] = refl
  count_marks-raw_row (v ∷ vs) = omega (
    arith,
    count_marks-append (marks_tail (length vs)) (codes ")"),
    count_marks-marks_tail (length vs),
  )

  row_error-length :
      (cols idx : ℕ) (row : List A) → row_error cols idx row ≡ none → length row ≡ cols
  unfolding row_error
  row_error-length cols idx row h = ground arith

  -- The rows behind the first one, each behind a comma.
  abbrev raw_rows_tail : List (List A) → Text
  raw_rows_tail rows = tail_of_join comma (map raw_row rows)

  -- The VALUES clause with `?` for each value.
  unfoldable pub raw_values : List (List A) → Text
  raw_values rows = join (map raw_row rows) comma

  pub all_values : List (List A) → List A
  all_values [] = []
  all_values (row ∷ rest) = row ++ all_values rest

  rows_loop-args : (rows : List (List A)) (i : ℕ) → (rows_loop rows i).1 ≡ all_values rows
  unfolding rows_loop all_values
  rows_loop-args [] i = refl
  rows_loop-args (row ∷ rest) i = ap (λ l. row ++ l) (rows_loop-args rest _)

  rows_loop-tail :
      (rows : List (List A)) (i : ℕ)
      → tail_of_join comma (rows_loop rows i).0 ≡ numbered i (raw_rows_tail rows)
  unfolding rows_loop tail_of_join
  rows_loop-tail [] i = unfold numbered in refl
  rows_loop-tail (row ∷ rest) i =
      simp
        (
          row_loop-next row i,
          rows_loop-tail rest (i + length row),
          numbered-append_plain comma (raw_row row ++ raw_rows_tail rest) i comma-Lacks,
          numbered-append (raw_row row) (raw_rows_tail rest) i,
          count_marks-raw_row row,
        )
        (ap (λ (t : Text). comma ++ (t ++ numbered (i + length row) (raw_rows_tail rest)))
          (row_loop-join row i))

  rows_loop-join :
      (rows : List (List A)) (i : ℕ)
      → join (rows_loop rows i).0 comma ≡ numbered i (raw_values rows)
  unfolding rows_loop raw_values join
  rows_loop-join [] i = unfold numbered in refl
  rows_loop-join (row ∷ rest) i =
      simp
        (
          row_loop-next row i,
          rows_loop-tail rest (i + length row),
          numbered-append (raw_row row) (raw_rows_tail rest) i,
          count_marks-raw_row row,
        )
        (ap (λ (t : Text). t ++ numbered (i + length row) (raw_rows_tail rest))
          (row_loop-join row i))

  -- The VALUES clause numbers its placeholders from 1 and collects the values row by row.
  pub build_values_clause-numbered :
      (rows : List (List A))
      → build_values_clause rows ≡ (numbered 1 (raw_values rows), all_values rows)
  unfolding build_values_clause
  build_values_clause-numbered rows = λ i. (rows_loop-join rows 1 i, rows_loop-args rows 1 i)

  count_marks-raw_rows_tail :
      (rows : List (List A)) → count_marks (raw_rows_tail rows) ≡ length (all_values rows)
  unfolding all_values tail_of_join
  count_marks-raw_rows_tail [] = unfold count_marks in refl
  count_marks-raw_rows_tail (row ∷ rest) = omega (
    arith,
    count_marks-append_plain comma (raw_row row ++ raw_rows_tail rest) comma-Lacks,
    count_marks-append (raw_row row) (raw_rows_tail rest),
    count_marks-raw_row row,
    count_marks-raw_rows_tail rest,
    length-append row (all_values rest),
  )

  pub count_marks-raw_values :
      (rows : List (List A)) → count_marks (raw_values rows) ≡ length (all_values rows)
  unfolding raw_values all_values join
  count_marks-raw_values [] = unfold count_marks in refl
  count_marks-raw_values (row ∷ rest) = omega (
    arith,
    count_marks-append (raw_row row) (raw_rows_tail rest),
    count_marks-raw_row row,
    count_marks-raw_rows_tail rest,
    length-append row (all_values rest),
  )

  validate_rows-length :
      (cols idx : ℕ) (rows : List (List A))
      → validate_rows cols idx rows ≡ none
      → length (all_values rows) ≡ length rows * cols
  unfolding validate_rows all_values
  validate_rows-length cols idx [] h = omega arith
  validate_rows-length cols idx (row ∷ rest) h =
      let (hr, hs) = then_check-eq-none (row_error cols idx row) _ h in
      omega (
        arith,
        row_error-length cols idx row hr,
        validate_rows-length cols (idx + 1) rest hs,
        length-append row (all_values rest),
      )

  -- Rows that pass have one value for each column.
  pub length-all_values :
      (cols : ℕ) (rows : List (List A))
      → validate_insert_values cols rows ≡ none
      → length (all_values rows) ≡ length rows * cols
  unfolding validate_insert_values
  length-all_values cols [] h = cc
  length-all_values cols (row ∷ rest) h = validate_rows-length cols 0 (row ∷ rest) (ground arith)
