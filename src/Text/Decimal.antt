-- ===== src/Text/Decimal.antt =====
-- `%d` of package fmt.
use txova_go_db.Prelude.{
  ℕ, zero, suc, ◌+◌, ◌-◌, ◌*◌, ◌/◌, ◌%◌, ◌≤◌, ◌<◌, ◌≡◌, ◌⊎◌, Bool, ◌&&◌, [], ◌∷◌, All, arith, leb,
  ltb, if◌then◌else◌,
}
use txova_go_db.Prelude.Int.{ℤ, pos, negsuc}
use txova_go_db.Text.{Text, Lacks}

abbrev pub is_digit : ℕ → Bool
is_digit c = leb b'0' c && leb c b'9'

-- The digits of `n` in front of `out`; each round divides by ten.
digits : ℕ → ℕ → Text → Text
digits zero n out = out
digits (suc fuel) n out =
    let rest = digits fuel (n / 10) ((b'0' + n % 10) ∷ out) in
    if ltb n 10 then (b'0' + n) ∷ out else rest

-- A number has at most as many digits as its successor has units, so the fuel is enough.
unfoldable pub decimal : ℕ → Text
unfolding digits
decimal n = digits (suc n) n []

unfoldable pub decimal_ℤ : ℤ → Text
decimal_ℤ (pos n) = decimal n
decimal_ℤ (negsuc n) = b'-' ∷ decimal (suc n)

abbrev pub IsDigit : ℕ → Type 0
IsDigit c = (b'0' ≤ c) × (c ≤ b'9')

digits-IsDigit : (f n : ℕ) (out : Text) → All IsDigit out → All IsDigit (digits f n out)
unfolding digits
digits-IsDigit zero n out h = h
digits-IsDigit (suc f) n out h = ground (arith, digits-IsDigit f (n / 10) ((b'0' + n % 10) ∷ out))

pub decimal-IsDigit : (n : ℕ) → All IsDigit (decimal n)
unfolding decimal
decimal-IsDigit n = digits-IsDigit (suc n) n [] tt

-- The number that digits spell behind `n`.
abbrev pub read_digits : ℕ → Text → ℕ
read_digits n [] = n
read_digits n (c ∷ s) = read_digits (n * 10 + (c - b'0')) s

read_digits-digits :
    (f n : ℕ) (out : Text) → n < f → read_digits 0 (digits f n out) ≡ read_digits n out
unfolding digits
read_digits-digits zero n out h = elim h [ ]
read_digits-digits (suc f) n out h =
    ground (arith, read_digits-digits f (n / 10) ((b'0' + n % 10) ∷ out))

-- The digits of a number spell it.
pub read_digits-decimal : (n : ℕ) → read_digits 0 (decimal n) ≡ n
unfolding decimal
read_digits-decimal n = read_digits-digits (suc n) n [] (omega arith)

IsDigit-Lacks : (b : ℕ) (s : Text) → (b < b'0') ⊎ (b'9' < b) → All IsDigit s → Lacks b s
IsDigit-Lacks b [] h d = tt
IsDigit-Lacks b (c ∷ s) h ((lo, hi), ds) = (omega arith, IsDigit-Lacks b s h ds)

-- The print of an integer holds digits and perhaps a sign.
pub decimal_ℤ-Lacks : (b : ℕ) (n : ℤ) → b'9' < b → Lacks b (decimal_ℤ n)
unfolding decimal_ℤ
decimal_ℤ-Lacks b (pos n) h = IsDigit-Lacks b (decimal n) (omega arith) (decimal-IsDigit n)
decimal_ℤ-Lacks b (negsuc n) h =
    (omega arith, IsDigit-Lacks b (decimal (suc n)) (omega arith) (decimal-IsDigit (suc n)))
