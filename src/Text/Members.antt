-- ===== src/Text/Members.antt =====
-- Membership in lists of texts as a test, and maps from texts as association lists.
use txova_go_db.Prelude.{
  ℕ, ◌+◌, ◌≡◌, ◌≢◌, refl, sym, ◌⊎◌, inl, inr, Bool, true, false, ◌||◌, List, [], ◌∷◌, ◌++◌, Option,
  none, some, if◌then◌else◌, Bool-cases, arith,
}
use txova_go_db.Text.{Text, text_eq}
use txova_go_db.Text.Equality.{text_eq_iff, text_eq_refl}

unfoldable pub mem : Text → List Text → Bool
mem k [] = false
mem k (j ∷ ks) = text_eq k j || mem k ks

-- No text is in the list twice.
abbrev pub IsDistinct : List Text → Type 0
IsDistinct [] = Unit
IsDistinct (k ∷ ks) = (mem k ks ≡ false) × IsDistinct ks

-- The sum of a number for each of the texts.
abbrev pub total : (Text → ℕ) → List Text → ℕ
total f [] = 0
total f (k ∷ ks) = f k + total f ks

pub append_cancel : (p k j : Text) → p ++ k ≡ p ++ j → k ≡ j
append_cancel [] k j e = e
append_cancel (c ∷ p) k j e = append_cancel p k j cc

pub total-append : (f : Text → ℕ) (ks js : List Text) → total f (ks ++ js) ≡ total f ks + total f js
total-append f [] js = omega arith
total-append f (k ∷ ks) js = omega (arith, total-append f ks js)

pub text_eq-false : (s t : Text) → s ≢ t → text_eq s t ≡ false
text_eq-false s t h = elim (Bool-cases (text_eq s t)) [
  | inl e ↦ absurd (h ((text_eq_iff s t).0 e))
  | inr e ↦ e
]

pub mem-append : (k : Text) (xs ys : List Text) → mem k (xs ++ ys) ≡ (mem k xs || mem k ys)
unfolding mem
mem-append k [] ys = refl
mem-append k (x ∷ xs) ys = ground (arith, mem-append k xs ys)

pub mem-cons : (k j : Text) (ks : List Text) → mem k (j ∷ ks) ≡ true → (k ≡ j) ⊎ (mem k ks ≡ true)
unfolding mem
mem-cons k j ks h = elim (Bool-cases (text_eq k j)) [
  | inl e ↦ inl ((text_eq_iff k j).0 e)
  | inr e ↦ inr (rw e at h)
]

pub mem-cons-false :
    (k j : Text) (ks : List Text) → mem k (j ∷ ks) ≡ false → (k ≢ j) × (mem k ks ≡ false)
unfolding mem
mem-cons-false k j ks h = elim (Bool-cases (text_eq k j)) [
  | inl e ↦ let absurd_case = rw e at h in cc
  | inr e ↦ (λ q. let p = (text_eq_iff k j).1 q in cc, rw e at h)
]

-- Appending to a list without repetitions.
pub IsDistinct-append :
    (xs ys : List Text)
    → IsDistinct (xs ++ ys)
    → IsDistinct xs × IsDistinct ys × ((k : Text) → mem k xs ≡ true → mem k ys ≡ false)
unfolding mem
IsDistinct-append [] ys d = (tt, d, λ k h. cc)
IsDistinct-append (x ∷ xs) ys (new, d) =
    let (dx, dy, apart) = IsDistinct-append xs ys d in
    let new' : (mem x xs || mem x ys) ≡ false = rw (mem-append x xs ys) at new in
    (
      (ground arith, dx),
      dy,
      λ k h. elim (mem-cons k x xs h) [ inl e ↦ rw e (ground arith) | inr m ↦ apart k m ],
    )

module _ {ℓ} {A : Type ℓ} where
  -- `m[k]`, with nothing for a key that is missing.
  unfoldable pub find : Text → List (Text × A) → Option A
  find k [] = none
  find k ((j, a) ∷ d) = if text_eq k j then some a else find k d

  -- `m[k] = a`
  unfoldable pub put : Text → A → List (Text × A) → List (Text × A)
  put k a [] = (k, a) ∷ []
  put k a ((j, b) ∷ d) = let rest = put k a d in if text_eq k j then (j, a) ∷ d else (j, b) ∷ rest

  pub find-put_same : (k : Text) (a : A) (d : List (Text × A)) → find k (put k a d) ≡ some a
  unfolding find put
  find-put_same k a [] = rw (text_eq_refl k) refl
  find-put_same k a ((j, b) ∷ d) = elim (Bool-cases (text_eq k j)) [
    | inl e ↦ rw (e, e) refl
    | inr e ↦ rw (e, e) (find-put_same k a d)
  ]

  pub find-put_other :
      (k j : Text) (a : A) (d : List (Text × A)) → k ≢ j → find k (put j a d) ≡ find k d
  unfolding find put
  find-put_other k j a [] h = rw (text_eq-false k j h) refl
  find-put_other k j a ((i, b) ∷ d) h = elim (Bool-cases (text_eq j i)) [
    | inl e ↦
        let same = (text_eq_iff j i).0 e in
        let ne : text_eq k i ≡ false = rw (sym same) (text_eq-false k j h) in rw (e, ne) refl
    | inr e ↦ rw (e, find-put_other k j a d h) refl
  ]

-- The last element of a list is in it.
pub mem-last : (ks : List Text) (k : Text) → mem k (ks ++ (k ∷ [])) ≡ true
unfolding mem
mem-last [] k = rw (text_eq_refl k) refl
mem-last (j ∷ ks) k = ground (arith, mem-last ks k)
