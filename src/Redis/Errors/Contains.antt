-- ===== src/Redis/Errors/Contains.antt =====
-- `contains` and `containsIgnoreCase` against the texts that a text is made of.
use txova_go_db.Prelude.{
  ℕ, zero, suc, ◌+◌, ◌-◌, ◌≤◌, ◌≡◌, refl, ap, ◌∙◌, ◌↔◌, inl, inr, true, false, [], ◌∷◌, ◌++◌,
  length, length-append, arith, Bool-cases, ltb,
}
use txova_go_db.Text.{Text, text_eq}
use txova_go_db.Text.Equality.{text_eq_iff, text_eq_refl}
use txova_go_db.Redis.Errors.{
  take, tail, contains_loop, contains, to_lower, lower_byte, contains_ignore_case,
}

drop : ℕ → Text → Text
drop zero s = s
drop (suc n) [] = []
drop (suc n) (c ∷ s) = drop n s

take-drop : (n : ℕ) (s : Text) → s ≡ take n s ++ drop n s
unfolding take drop
take-drop zero s = refl
take-drop (suc n) [] = refl
take-drop (suc n) (c ∷ s) = ap (λ t. c ∷ t) (take-drop n s)

take-append : (t q : Text) → take (length t) (t ++ q) ≡ t
unfolding take
take-append [] q = refl
take-append (c ∷ t) q = ap (λ u. c ∷ u) (take-append t q)

-- The text stands somewhere in the other one.
abbrev pub Occurs : Text → Text → Type 0
Occurs t s = (p : Text) × (q : Text) × (s ≡ p ++ (t ++ q))

Occurs-cons : (t s : Text) (c : ℕ) → Occurs t s → Occurs t (c ∷ s)
Occurs-cons t s c (p, q, e) = (c ∷ p, q, ap (λ u. c ∷ u) e)

Occurs-tail : (t s : Text) → Occurs t (tail s) → Occurs t s
unfolding tail
Occurs-tail t [] o = o
Occurs-tail t (c ∷ s) o = Occurs-cons t s c o

contains_loop-Occurs : (n : ℕ) (s t : Text) → contains_loop n s t ≡ true → Occurs t s
unfolding contains_loop
contains_loop-Occurs zero s t h = cc
contains_loop-Occurs (suc n) s t h = elim (Bool-cases (text_eq (take (length t) s) t)) [
  | inl e ↦
      let same = (text_eq_iff (take (length t) s) t).0 e in
      ([], drop (length t) s, take-drop (length t) s ∙ ap (λ u. u ++ drop (length t) s) same)
  | inr e ↦ Occurs-tail t s (contains_loop-Occurs n (tail s) t (rw e at h))
]

Occurs-contains_loop :
    (n : ℕ) (p t q : Text) → length p + 1 ≤ n → contains_loop n (p ++ (t ++ q)) t ≡ true
unfolding contains_loop tail
Occurs-contains_loop zero p t q h = absurd (omega arith)
Occurs-contains_loop (suc n) [] t q h = rw (take-append t q, text_eq_refl t) refl
Occurs-contains_loop (suc n) (c ∷ p) t q h =
    rw (Occurs-contains_loop n p t q (omega arith)) (ground arith)

-- `contains` finds exactly the texts that stand in the other one.
pub contains_iff : (s t : Text) → (contains s t ≡ true) ↔ Occurs t s
unfolding contains
contains_iff s t = (
  λ h. elim (Bool-cases (ltb (length s) (length t))) [
    | inl e ↦ let no = rw e at h in cc
    | inr e ↦ contains_loop-Occurs (length s - length t + 1) s t (rw e at h)
  ],
  λ (p, q, e).
      let size = ap length e ∙ length-append p (t ++ q) in
      let inner = length-append t q in
      let long : ltb (length s) (length t) ≡ false = ground arith in
      rw (long)
        (rw e (Occurs-contains_loop _ p t q (omega (arith, inner, length-append p (t ++ q))))),
)

to_lower-append : (s t : Text) → to_lower (s ++ t) ≡ to_lower s ++ to_lower t
unfolding to_lower
to_lower-append [] t = refl
to_lower-append (c ∷ s) t = ap (λ u. lower_byte c ∷ u) (to_lower-append s t)

-- A text whose lower case has two parts has two parts.
split_lower :
    (s a b : Text)
    → to_lower s ≡ a ++ b
    → (x : Text) × (y : Text) × (s ≡ x ++ y) × (to_lower x ≡ a) × (to_lower y ≡ b)
unfolding to_lower
split_lower s [] b h = ([], s, refl, refl, h)
split_lower [] (d ∷ a) b h = cc
split_lower (c ∷ s) (d ∷ a) b h =
    let first : lower_byte c ≡ d = cc in
    let (x, y, e, ex, ey) = split_lower s a b (cc) in
    (c ∷ x, y, ap (λ u. c ∷ u) e, (λ i. first i ∷ ex i), ey)

-- `containsIgnoreCase` finds a part of the text that equals the pattern up to the case of its
-- letters, and finds it wherever there is one.
pub contains_ignore_case_iff :
    (s t : Text)
    → (contains_ignore_case s t ≡ true)
      ↔ ((p : Text) × (m : Text) × (q : Text) × (s ≡ p ++ (m ++ q)) × (to_lower m ≡ to_lower t))
unfolding contains_ignore_case
contains_ignore_case_iff s t = (
  λ h.
      let (p, q, e) = (contains_iff (to_lower s) (to_lower t)).0 h in
      let (x, y, es, ex, ey) = split_lower s p (to_lower t ++ q) e in
      let (m, z, ey', em, ez) = split_lower y (to_lower t) q ey in
      (x, m, z, es ∙ ap (λ u. x ++ u) ey', em),
  λ (p, m, q, e, em). (contains_iff (to_lower s) (to_lower t)).1 (
    to_lower p,
    to_lower q,
    ap to_lower e
        ∙ to_lower-append p (m ++ q)
        ∙ ap (λ u. to_lower p ++ u) (to_lower-append m q ∙ ap (λ u. u ++ to_lower q) em),
  ),
)
