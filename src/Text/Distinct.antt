-- ===== src/Text/Distinct.antt =====
-- Lists of texts as sets: adding, removing and leaving out repetitions.
use txova_go_db.Prelude.{
  ◌≡◌, ◌≢◌, refl, ◌∙◌, inl, inr, true, false, not, ◌&&◌, ◌||◌, List, [], ◌∷◌, if◌then◌else◌,
  Bool-cases, arith,
}
use txova_go_db.Text.{Text, text_eq}
use txova_go_db.Text.Equality.{text_eq_iff}
use txova_go_db.Text.Members.{mem, IsDistinct}

abbrev pub insert : Text → List Text → List Text
insert x xs = if mem x xs then xs else x ∷ xs

abbrev pub without : List Text → List Text → List Text
without xs [] = []
without xs (y ∷ ys) = let rest = without xs ys in if mem y xs then rest else y ∷ rest

abbrev pub distinct : List Text → List Text
distinct [] = []
distinct (x ∷ xs) = let rest = distinct xs in insert x rest

pub insert-mem : (x y : Text) (xs : List Text) → mem y (insert x xs) ≡ (text_eq y x || mem y xs)
unfolding mem
insert-mem x y xs = elim (Bool-cases (mem x xs)) [
  | inr e ↦ rw e refl
  | inl e ↦ rw e (elim (Bool-cases (text_eq y x)) [
    | inr n ↦ rw n refl
    | inl q ↦ let same = (text_eq_iff y x).0 q in rw (q, same, e) refl
  ])
]

pub distinct-mem : (y : Text) (xs : List Text) → mem y (distinct xs) ≡ mem y xs
unfolding mem
distinct-mem y [] = refl
distinct-mem y (x ∷ xs) = insert-mem x y (distinct xs) ∙ rw (distinct-mem y xs) refl

insert-IsDistinct : (x : Text) (xs : List Text) → IsDistinct xs → IsDistinct (insert x xs)
insert-IsDistinct x xs d = elim (Bool-cases (mem x xs)) [ inl e ↦ rw e d | inr e ↦ rw e (e, d) ]

pub distinct-IsDistinct : (xs : List Text) → IsDistinct (distinct xs)
distinct-IsDistinct [] = tt
distinct-IsDistinct (x ∷ xs) = insert-IsDistinct x (distinct xs) (distinct-IsDistinct xs)

pub without-mem :
    (xs : List Text) (y : Text) (ys : List Text)
    → mem y (without xs ys) ≡ (not (mem y xs) && mem y ys)
unfolding mem
without-mem xs y [] = ground arith
without-mem xs y (z ∷ ys) = elim (Bool-cases (mem z xs)) [
  | inl e ↦ rw e (elim (Bool-cases (text_eq y z)) [
    | inl q ↦
        let same = (text_eq_iff y z).0 q in
        let has : mem y xs ≡ true = rw same e in rw (without-mem xs y ys, has) refl
    | inr q ↦ rw (q, without-mem xs y ys) refl
  ])
  | inr e ↦ rw e (elim (Bool-cases (text_eq y z)) [
    | inl q ↦
        let same = (text_eq_iff y z).0 q in
        let has : mem y xs ≡ false = rw same e in rw (q, has) refl
    | inr q ↦ rw (q, without-mem xs y ys) refl
  ])
]

pub insert-nonempty : (x : Text) (xs : List Text) → insert x xs ≢ []
unfolding mem
insert-nonempty x [] e = cc
insert-nonempty x (y ∷ ys) e = elim (Bool-cases (mem x (y ∷ ys))) [
  | inl c ↦ let both = rw c at e in cc
  | inr c ↦ let both = rw c at e in cc
]
