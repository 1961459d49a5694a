-- ===== src/Postgres/Placeholders/Parameters.antt =====
-- The parameter references that the server reads in a numbered text.
use txova_go_db.Prelude.{
  ℕ, suc, ◌+◌, ◌-◌, ◌*◌, ◌≡◌, ◌≢◌, refl, ap, ◌++◌, ◌∙◌, Bool, true, false, List, [], ◌∷◌, All,
  range_from, arith, ◌==◌, if◌then◌else◌, Bool-cases, inl, inr, sym, Option, none, some,
}
use native.Mathlib.Nat.{zero-add}
use txova_go_db.Text.{Text}
use txova_go_db.Text.Decimal.{
  decimal, is_digit, IsDigit, decimal-IsDigit, read_digits, read_digits-decimal,
}
use txova_go_db.Postgres.Placeholders.{mark, replace_placeholders}
use txova_go_db.Postgres.Placeholders.Numbering.{count_marks, numbered, replace_placeholders_lem}

abbrev dollar : ℕ
dollar = b'$'

-- The numbers of the references `$n` in a text, in order. The first argument is the number of the
-- reference that is being read.
read_parameters : Option ℕ → Text → List ℕ
read_parameters none [] = []
read_parameters (some n) [] = n ∷ []
read_parameters none (c ∷ s) = read_parameters (if c == dollar then some 0 else none) s
read_parameters (some n) (c ∷ s) = elim (is_digit c) [
  | true ↦ read_parameters (some (n * 10 + (c - b'0'))) s
  | false ↦ n ∷ read_parameters (if c == dollar then some 0 else none) s
]

unfoldable pub parameters : Text → List ℕ
unfolding read_parameters
parameters = read_parameters none

-- Reading the digits of a reference, whatever follows them.
read_parameters-digits :
    (ds rest : Text) (n : ℕ)
    → All IsDigit ds
    → read_parameters (some n) (ds ++ rest) ≡ read_parameters (some (read_digits n ds)) rest
unfolding read_parameters
read_parameters-digits [] rest n h = refl
read_parameters-digits (d ∷ ds) rest n (hd, hds) =
    ground (arith, read_parameters-digits ds rest (n * 10 + (d - b'0')) hds)

-- The text holds no `$`, and no placeholder has a digit right behind it; the first argument says
-- whether the text itself follows a placeholder.
abbrev pub IsPlain : Bool → Text → Type 0
IsPlain after [] = Unit
IsPlain after (c ∷ s) = (c ≢ dollar) × (after ≡ true → is_digit c ≡ false) × IsPlain (c == mark) s

-- The number that is being read behind a placeholder.
abbrev pending : Bool → ℕ → Option ℕ
pending true n = some n
pending false n = none

abbrev opened : Bool → ℕ → List ℕ
opened true n = n ∷ []
opened false n = []

read_parameters-hit :
    (s : Text) (i n : ℕ) (after : Bool)
    → read_parameters (pending after n) (b'$' ∷ (decimal i ++ s))
      ≡ opened after n ++ read_parameters (some i) s
unfolding read_parameters
read_parameters-hit s i n true =
    simp (read_parameters-digits (decimal i) s 0 (decimal-IsDigit i), read_digits-decimal) refl
read_parameters-hit s i n false =
    simp (read_parameters-digits (decimal i) s 0 (decimal-IsDigit i), read_digits-decimal) refl

read_parameters-miss :
    (s : Text) (c n : ℕ) (after : Bool)
    → c ≢ dollar
    → (after ≡ true → is_digit c ≡ false)
    → read_parameters (pending after n) (c ∷ s) ≡ opened after n ++ read_parameters none s
unfolding read_parameters
read_parameters-miss s c n true h k = rw (k refl, read_parameters) (ground arith)
read_parameters-miss s c n false h k = ground arith

range_from-one : (i k : ℕ) → range_from i (1 + k) ≡ i ∷ range_from (i + 1) k
range_from-one i k = let e : 1 + k ≡ suc k = omega arith in rw e

read_parameters-numbered :
    (s : Text) (i n : ℕ) (after : Bool)
    → IsPlain after s
    → read_parameters (pending after n) (numbered i s)
      ≡ opened after n ++ range_from i (count_marks s)
unfolding numbered count_marks
read_parameters-numbered [] i n true h = unfold read_parameters in refl
read_parameters-numbered [] i n false h = unfold read_parameters in refl
read_parameters-numbered (c ∷ s) i n after (hc, hd, hs) = elim (Bool-cases (c == mark)) [
  | inl hit ↦ rw hit (
      read_parameters-hit (numbered (i + 1) s) i n after
      ∙ ap (λ l. opened after n ++ l) (read_parameters-numbered s (i + 1) i true (rw hit at hs))
      ∙ ap (λ l. opened after n ++ l) (sym (range_from-one i (count_marks s))))
  | inr miss ↦
      rw (miss, zero-add)
        (read_parameters-miss (numbered i s) c n after hc hd
          ∙ ap (λ l. opened after n ++ l) (read_parameters-numbered s i 0 false (rw miss at hs)))
]

-- The references in a numbered text are the indices in order, one for each placeholder.
pub parameters-replace_placeholders :
    (s : Text) (i : ℕ)
    → IsPlain false s
    → parameters (replace_placeholders s i).0 ≡ range_from i (count_marks s)
unfolding parameters
parameters-replace_placeholders s i h =
    rw (replace_placeholders_lem s i) (read_parameters-numbered s i 0 false h)
