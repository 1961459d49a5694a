-- ===== src/Postgres/QueryBuilder/Allowlist.antt =====
-- What the validation of names lets through.
use txova_go_db.Prelude.{
  ℕ, ◌≡◌, ◌≢◌, refl, ◌↔◌, ◌⊎◌, inl, inr, true, false, ◌||◌, List, [], ◌∷◌, Option, none, some,
  length, ltb, arith, Bool-cases, subst, ◌then_check◌, then_check-eq-none,
}
use txova_go_db.Text.{Text, text_eq, Lacks}
use txova_go_db.Text.Equality.{text_eq_iff}
use txova_go_db.Postgres.Identifier.{
  column_name_matches, IsName, column_name_matches_iff, matches-Lacks, IsForeign, is_part,
}
use txova_go_db.Postgres.Placeholders.{mark}
use txova_go_db.Postgres.QueryBuilder.{
  BuildError, replaced, QueryBuilder, contains, insert_columns, new_query_builder,
  validate_column_name, validate_table_name,
}

-- The list has the text among its members.
abbrev pub Any : Text → List Text → Type 0
Any c [] = ⊥
Any c (d ∷ cs) = (d ≡ c) ⊎ Any c cs

-- A well-formed name of the allowlist.
abbrev pub IsListed : QueryBuilder → Text → Type 0
IsListed qb col = IsName col × Any col qb.allowed_columns

contains-Any : (cs : List Text) (c : Text) → contains cs c ≡ true → Any c cs
unfolding contains
contains-Any [] c h = cc
contains-Any (d ∷ cs) c h = elim (Bool-cases (text_eq d c)) [
  | inl e ↦ inl ((text_eq_iff d c).0 e)
  | inr e ↦ inr (contains-Any cs c (rw e at h))
]

Any-contains : (cs : List Text) (c : Text) → Any c cs → contains cs c ≡ true
unfolding contains
Any-contains [] c h = absurd h
Any-contains (d ∷ cs) c (inl e) = rw ((text_eq_iff d c).1 e)
Any-contains (d ∷ cs) c (inr m) = ground (arith, Any-contains cs c m)

insert_columns-contains :
    (cols set : List Text) (c : Text)
    → contains (insert_columns set cols) c ≡ (contains set c || contains cols c)
unfolding contains insert_columns
insert_columns-contains [] set c = ground arith
insert_columns-contains (col ∷ cols) set c = elim (Bool-cases (contains set col)) [
  | inl old ↦ rw old (already col cols set c old (insert_columns-contains cols set c))
  | inr new ↦ rw new (ground (arith, insert_columns-contains cols (col ∷ set) c))
]
  where
    already :
        (col : Text) (cols set : List Text) (c : Text)
        → contains set col ≡ true
        → contains (insert_columns set cols) c ≡ (contains set c || contains cols c)
        → contains (insert_columns set cols) c ≡ (contains set c || contains (col ∷ cols) c)
    already col cols set c old ih = elim (Bool-cases (text_eq col c)) [
      | inl e ↦ ground (arith, ih, subst (λ x. contains set x ≡ true) ((text_eq_iff col c).0 e) old)
      | inr e ↦ ground (arith, ih)
    ]

-- The allowlist holds exactly the columns that it was made from.
pub contains-new_query_builder :
    (cols : List Text) (c : Text)
    → contains (new_query_builder cols).allowed_columns c ≡ contains cols c
unfolding new_query_builder
contains-new_query_builder cols c = insert_columns-contains cols [] c

length-ne-nil : (l : List Text) → l ≢ [] → ltb 0 (length l) ≡ true
length-ne-nil [] h = absurd (h refl)
length-ne-nil (x ∷ l) h = ground arith

matches-ne-nil : (s : Text) → column_name_matches s ≡ true → text_eq s [] ≡ false
unfolding column_name_matches
matches-ne-nil [] h = cc
matches-ne-nil (c ∷ s) h = unfold text_eq in refl

validate_column_name-checks :
    (qb : QueryBuilder) (column : Text)
    → ltb 0 (length qb.allowed_columns) ≡ true
    → validate_column_name qb column ≡ none
    → (column_name_matches column ≡ true) × (contains qb.allowed_columns column ≡ true)
unfolding validate_column_name
validate_column_name-checks qb column h e = ground arith

validate_column_name-passes :
    (qb : QueryBuilder) (column : Text)
    → ltb 0 (length qb.allowed_columns) ≡ true
    → column_name_matches column ≡ true
    → contains qb.allowed_columns column ≡ true
    → validate_column_name qb column ≡ none
unfolding validate_column_name
validate_column_name-passes qb column h m c = ground (arith, matches-ne-nil column m)

-- With an allowlist a column passes exactly if it is a well-formed name of the list.
pub validate_column_name_iff :
    (qb : QueryBuilder) (column : Text)
    → qb.allowed_columns ≢ []
    → (validate_column_name qb column ≡ none) ↔ (IsName column × Any column qb.allowed_columns)
validate_column_name_iff qb column h =
    let cols = qb.allowed_columns in
    let full = length-ne-nil cols h in
    (
      λ e.
          let (m, c) = validate_column_name-checks qb column full e in
          ((column_name_matches_iff column).0 m, contains-Any cols column c),
      λ (n, a).
          validate_column_name-passes qb column full ((column_name_matches_iff column).1 n)
            (Any-contains cols column a),
    )

validate_table_name-matches :
    (table : Text) → validate_table_name table ≡ none → column_name_matches table ≡ true
unfolding validate_table_name
validate_table_name-matches table h = ground arith

matches-validate_table_name :
    (table : Text) → column_name_matches table ≡ true → validate_table_name table ≡ none
unfolding validate_table_name
matches-validate_table_name table h = ground (arith, matches-ne-nil table h)

-- A table passes exactly if it is a well-formed name.
pub validate_table_name_iff : (table : Text) → (validate_table_name table ≡ none) ↔ IsName table
validate_table_name_iff table = (
  λ e. (column_name_matches_iff table).0 (validate_table_name-matches table e),
  λ n. matches-validate_table_name table ((column_name_matches_iff table).1 n),
)

-- A table that passes holds no code point beside letters, digits, underscores and dots.
pub validate_table_name-Lacks :
    (b : ℕ) (table : Text) → IsForeign b → validate_table_name table ≡ none → Lacks b table
validate_table_name-Lacks b table f h =
    matches-Lacks b table f (validate_table_name-matches table h)

pub mark-IsForeign : IsForeign mark
unfolding is_part
mark-IsForeign = (refl, omega arith)

both_none : (f g : Option BuildError) → f ≡ none → g ≡ none → (f then_check g) ≡ none
both_none none g e h = h
both_none (some x) g e h = cc

pub replaced-eq-none : (o : Option BuildError) (e : BuildError) → (replaced o e ≡ none) ↔ (o ≡ none)
replaced-eq-none none e = (λ h. refl, λ h. refl)
replaced-eq-none (some x) e = (λ h. cc, λ h. cc)

pub both_iff {ℓ κ} :
    {P : Type ℓ} {Q : Type κ} (f g : Option BuildError)
    → (f ≡ none) ↔ P
    → (g ≡ none) ↔ Q
    → ((f then_check g) ≡ none) ↔ (P × Q)
both_iff f g p q = (
  λ h. let (hf, hg) = then_check-eq-none f g h in (p.0 hf, q.0 hg),
  λ (hp, hq). both_none f g (p.1 hp) (q.1 hq),
)
