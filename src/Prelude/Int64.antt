-- ===== src/Prelude/Int64.antt =====
-- Go's `int64`: wrap-around, products and quotients by constants.
use Prim.Native.Nat.{ℕ, zero, suc, ◌-◌, ◌*◌, ◌/◌, ◌%◌, ◌^◌, ◌<◌}
use mathlib.Core.Path.{◌≡◌}
use native.Mathlib.Omega.{arith}
use txova_go_db.Prelude.Tests.{ltb, if◌then◌else◌}
use txova_go_db.Prelude.Int.{ℤ, pos, negsuc, ◌-ℤ◌}

-- The `int64` with a bit pattern.
abbrev pub signed64 : ℕ → ℤ
signed64 m = if ltb m (2 ^ 63) then pos m else negsuc (2 ^ 64 - m - 1)

-- An integer wrapped around to `int64`.
unfoldable pub wrap64 : ℤ → ℤ
wrap64 (pos n) = signed64 (n % 2 ^ 64)
wrap64 (negsuc n) = signed64 (2 ^ 64 - 1 - n % 2 ^ 64)

-- The product with a number that is not negative.
unfoldable pub times : ℤ → ℕ → ℤ
times (pos n) m = pos (n * m)
times (negsuc n) zero = pos 0
times (negsuc n) (suc m) = negsuc (suc n * suc m - 1)

-- Division by a positive number, towards zero.
unfoldable pub quotient : ℤ → ℕ → ℤ
unfolding ◌-ℤ◌
quotient (pos n) m = pos (n / m)
quotient (negsuc n) m = pos 0 -ℤ pos (suc n / m)

pub wrap64_small : (n : ℕ) → n < 2 ^ 63 → wrap64 (pos n) ≡ pos n
unfolding wrap64
wrap64_small n h = ground arith

pub wrap64_negative : (x : ℕ) → x < 2 ^ 63 → wrap64 (negsuc x) ≡ negsuc x
unfolding wrap64
wrap64_negative x h = ground arith
