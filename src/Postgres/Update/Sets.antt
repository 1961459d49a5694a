-- ===== src/Postgres/Update/Sets.antt =====
-- `buildSetClause` of `UpdateBuilder` against the assignments with `?` for each value.
use txova_go_db.Prelude.{
  ℕ, ◌+◌, ◌≡◌, refl, ap, ◌∙◌, ◌++◌, List, [], ◌∷◌, map, All, append-nil, length, arith,
}
use txova_go_db.Text.{Text, codes, join, tail_of_join, Lacks}
use txova_go_db.Text.Decimal.{decimal}
use txova_go_db.Postgres.Placeholders.{mark}
use txova_go_db.Postgres.Placeholders.Numbering.{
  count_marks, numbered, count_marks-append, numbered-append, numbered-append_plain,
  count_marks-append_plain,
}
use txova_go_db.Postgres.Update.{SetClause, UpdateBuilder, set_loop, build_set_clause}

abbrev comma : Text
comma = codes ", "

comma-Lacks : Lacks mark comma
comma-Lacks = omega arith

module _ {A : Type 0} where
  -- `column = ?`
  unfoldable pub raw_set : SetClause A → Text
  raw_set s = s.column ++ codes " = ?"

  unfoldable pub raw_sets : List (SetClause A) → Text
  raw_sets sets = join (map raw_set sets) comma

  abbrev pub set_args : List (SetClause A) → List A
  set_args = map (λ (s : SetClause A). s.value)

  -- No name of the statement holds a `?`. The table needs no such condition: `Build` checks it.
  pub record HasNoMarks (u : UpdateBuilder A) : Type 0 where
    pub columns : All (λ (s : SetClause A). Lacks mark s.column) u.sets
    pub returning : All (Lacks mark) u.returning

  abbrev raw_sets_tail : List (SetClause A) → Text
  raw_sets_tail sets = tail_of_join comma (map raw_set sets)

  numbered-raw_set :
      (s : SetClause A) (n : ℕ)
      → Lacks mark s.column
      → numbered n (raw_set s) ≡ s.column ++ (codes " = $" ++ decimal n)
  unfolding raw_set
  numbered-raw_set s n h =
      numbered-append_plain s.column (codes " = ?") n h ∙ (unfold numbered in simp append-nil refl)

  count_marks-raw_set : (s : SetClause A) → Lacks mark s.column → count_marks (raw_set s) ≡ 1
  unfolding raw_set
  count_marks-raw_set s h =
      count_marks-append_plain s.column (codes " = ?") h ∙ (unfold count_marks in refl)

  set_loop-args : (sets : List (SetClause A)) (n : ℕ) → (set_loop sets n).1 ≡ set_args sets
  unfolding set_loop
  set_loop-args [] n = refl
  set_loop-args (s ∷ sets) n = ap (λ l. s.value ∷ l) (set_loop-args sets (n + 1))

  set_loop-next :
      (sets : List (SetClause A)) (n : ℕ) → (set_loop sets n).2 ≡ n + length (set_args sets)
  unfolding set_loop
  set_loop-next [] n = omega arith
  set_loop-next (s ∷ sets) n = omega (arith, set_loop-next sets (n + 1))

  set_loop-tail :
      (sets : List (SetClause A)) (n : ℕ)
      → All (λ (s : SetClause A). Lacks mark s.column) sets
      → tail_of_join comma (set_loop sets n).0 ≡ numbered n (raw_sets_tail sets)
  unfolding set_loop tail_of_join
  set_loop-tail [] n h = unfold numbered in refl
  set_loop-tail (s ∷ sets) n (hs, h) =
      simp
        (
          set_loop-tail sets (n + 1) h,
          numbered-append_plain comma (raw_set s ++ raw_sets_tail sets) n comma-Lacks,
          numbered-append (raw_set s) (raw_sets_tail sets) n,
          count_marks-raw_set s hs,
          numbered-raw_set s n hs,
        )
        refl

  set_loop-join :
      (sets : List (SetClause A)) (n : ℕ)
      → All (λ (s : SetClause A). Lacks mark s.column) sets
      → join (set_loop sets n).0 comma ≡ numbered n (raw_sets sets)
  unfolding set_loop join raw_sets
  set_loop-join [] n h = unfold numbered in refl
  set_loop-join (s ∷ sets) n (hs, h) =
      simp
        (
          set_loop-tail sets (n + 1) h,
          numbered-append (raw_set s) (raw_sets_tail sets) n,
          count_marks-raw_set s hs,
          numbered-raw_set s n hs,
        )
        refl

  count_marks-raw_sets_tail :
      (sets : List (SetClause A))
      → All (λ (s : SetClause A). Lacks mark s.column) sets
      → count_marks (raw_sets_tail sets) ≡ length (set_args sets)
  unfolding tail_of_join
  count_marks-raw_sets_tail [] h = unfold count_marks in refl
  count_marks-raw_sets_tail (s ∷ sets) (hs, h) = omega (
    arith,
    count_marks-append_plain comma (raw_set s ++ raw_sets_tail sets) comma-Lacks,
    count_marks-append (raw_set s) (raw_sets_tail sets),
    count_marks-raw_set s hs,
    count_marks-raw_sets_tail sets h,
  )

  pub count_marks-raw_sets :
      (sets : List (SetClause A))
      → All (λ (s : SetClause A). Lacks mark s.column) sets
      → count_marks (raw_sets sets) ≡ length (set_args sets)
  unfolding raw_sets join
  count_marks-raw_sets [] h = unfold count_marks in refl
  count_marks-raw_sets (s ∷ sets) (hs, h) = omega (
    arith,
    count_marks-append (raw_set s) (raw_sets_tail sets),
    count_marks-raw_set s hs,
    count_marks-raw_sets_tail sets h,
  )

  pub build_set_clause-numbered :
      (sets : List (SetClause A)) (n : ℕ)
      → All (λ (s : SetClause A). Lacks mark s.column) sets
      → build_set_clause sets n
        ≡ (numbered n (raw_sets sets), set_args sets, n + count_marks (raw_sets sets))
  unfolding build_set_clause
  build_set_clause-numbered sets n h =
      rw (count_marks-raw_sets sets h)
        (λ i. (set_loop-join sets n h i, set_loop-args sets n i, set_loop-next sets n i))
