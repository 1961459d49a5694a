-- ===== src/Postgres/Placeholders/Numbering.antt =====
-- Texts whose placeholders are numbered, and their parts.
use native.Mathlib.Nat.{add-zero}
use txova_go_db.Prelude.{
  ℕ, ◌+◌, ◌≡◌, refl, ◌++◌, [], ◌∷◌, append-nil, append_assoc, arith, ◌==◌, if◌then◌else◌,
  Bool-cases, inl, inr,
}
use txova_go_db.Text.{Text, Lacks}
use txova_go_db.Text.Decimal.{decimal}
use txova_go_db.Postgres.Placeholders.{mark, replace_loop, replace_placeholders}

-- How many placeholders a text holds.
unfoldable pub count_marks : Text → ℕ
count_marks [] = 0
count_marks (c ∷ s) = (if c == mark then 1 else 0) + count_marks s

-- The text with its placeholders numbered from `i`.
unfoldable pub numbered : ℕ → Text → Text
numbered i [] = []
numbered i (c ∷ s) =
    (if c == mark then b'$' ∷ decimal i else c ∷ []) ++ numbered (if c == mark then i + 1 else i) s

replace_loop-numbered :
    (s out : Text) (i : ℕ) → replace_loop s out i ≡ (out ++ numbered i s, i + count_marks s)
unfolding replace_loop numbered count_marks
replace_loop-numbered [] out i = ground (arith, append-nil out)
replace_loop-numbered (c ∷ s) out i = elim (Bool-cases (c == mark)) [
  | inl hit ↦ rw hit (simp (replace_loop-numbered s, append_assoc) (ground arith))
  | inr miss ↦ rw miss (simp (replace_loop-numbered s, append_assoc) (ground arith))
]

pub replace_placeholders_lem :
    (s : Text) (i : ℕ) → replace_placeholders s i ≡ (numbered i s, i + count_marks s)
unfolding replace_placeholders
replace_placeholders_lem s i = replace_loop-numbered s [] i

pub count_marks-append : (s t : Text) → count_marks (s ++ t) ≡ count_marks s + count_marks t
unfolding count_marks
count_marks-append [] t = omega arith
count_marks-append (c ∷ s) t = ground (arith, count_marks-append s t)

pub numbered-append :
    (s t : Text) (i : ℕ) → numbered i (s ++ t) ≡ numbered i s ++ numbered (i + count_marks s) t
unfolding numbered count_marks
numbered-append [] t i = ground arith
numbered-append (c ∷ s) t i = elim (Bool-cases (c == mark)) [
  | inl hit ↦ rw hit (simp (numbered-append s t, append_assoc) (ground arith))
  | inr miss ↦ rw miss (simp (numbered-append s t, append_assoc) (ground arith))
]

pub count_marks-Lacks : (s : Text) → Lacks mark s → count_marks s ≡ 0
unfolding count_marks
count_marks-Lacks [] h = refl
count_marks-Lacks (c ∷ s) (hc, hs) = ground (arith, count_marks-Lacks s)

pub numbered-Lacks : (s : Text) (i : ℕ) → Lacks mark s → numbered i s ≡ s
unfolding numbered
numbered-Lacks [] i h = refl
numbered-Lacks (c ∷ s) i (hc, hs) = ground (arith, numbered-Lacks s i)

-- A text without placeholders in front of another stays as it is.
pub numbered-append_plain :
    (s t : Text) (i : ℕ) → Lacks mark s → numbered i (s ++ t) ≡ s ++ numbered i t
numbered-append_plain s t i h =
    rw (numbered-append, numbered-Lacks s i h, count_marks-Lacks s h, add-zero)

pub count_marks-append_plain : (s t : Text) → Lacks mark s → count_marks (s ++ t) ≡ count_marks t
count_marks-append_plain s t h = omega (arith, count_marks-append s t, count_marks-Lacks s h)
