-- ===== src/Prelude/Outcomes.antt =====
-- A Go result `(v, err)` is a value or an error, never both; a lone `error` is an `Option`.
use mathlib.Core.Path.{◌≡◌, refl}
use mathlib.Core.Option.{Option, none, some}

pub data Result {ℓ κ} (E : Type ℓ) (A : Type κ) : Type (ℓ ⊔ κ) where
  ok : A → Result E A
  err : E → Result E A

-- `if err := f(); err != nil { return err }`, then the checks that follow.
infixr 20 ◌then_check◌
abbrev pub ◌then_check◌ {ℓ} : {E : Type ℓ} → Option E → Option E → Option E
none then_check g = g
some e then_check g = some e

pub then_check-eq-none {ℓ} :
    {E : Type ℓ} (f g : Option E) → (f then_check g) ≡ none → (f ≡ none) × (g ≡ none)
then_check-eq-none none g h = (refl, h)
then_check-eq-none (some e) g h = cc

-- `if err := f(); err != nil { return …, err }`, then the value.
abbrev pub unless_error {ℓ κ} : {E : Type ℓ} {A : Type κ} → Option E → A → Result E A
unless_error none a = ok a
unless_error (some e) a = err e

pub unless_error-eq-ok {ℓ κ} :
    {E : Type ℓ} {A : Type κ} (o : Option E) (a : A) {b : A}
    → unless_error o a ≡ ok b
    → (o ≡ none) × (a ≡ b)
unless_error-eq-ok none a h = (refl, cc)
unless_error-eq-ok (some e) a h = cc
