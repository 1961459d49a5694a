-- ===== src/Postgres/Tx/Delay/Bounds.antt =====
-- The delay of `calculateRetryDelay` where no product overflows, and where one does.
use native.Mathlib.Nat.{pow-le-pow_right}
use txova_go_db.Prelude.{
  ℕ, suc, ◌+◌, ◌-◌, ◌*◌, ◌/◌, ◌^◌, ◌≤◌, ◌<◌, ◌≡◌, refl, arith, if◌then◌else◌, min, false,
  Bool-cases, inl, inr, subst,
}
use txova_go_db.Prelude.Int64.{wrap64, wrap64_small, wrap64_negative}
use txova_go_db.Prelude.Int.{ℤ, pos, negsuc, ◌+ℤ◌, ◌-ℤ◌, ◌≤ℤ◌, ◌<ℤ◌, ltb_ℤ}
use txova_go_db.Postgres.Tx.Delay.{clamp_attempt, capped_delay, with_jitter, calculate_retry_delay}

-- `rand.Int64N n` lies between 0 and n - 1.
abbrev pub IsRandom : (ℤ → ℤ) → Type 0
IsRandom int64_n = (n : ℤ) → pos 0 <ℤ n → (pos 0 ≤ℤ int64_n n) × (int64_n n <ℤ n)

sub_pos : (a b : ℕ) → b ≤ a → pos a -ℤ pos b ≡ pos (a - b)
unfolding ◌-ℤ◌
sub_pos a b h = ground arith

add_pos : (a b : ℕ) → pos a +ℤ pos b ≡ pos (a + b)
unfolding ◌+ℤ◌
add_pos a b = ground arith

-- A number that is not negative.
as_pos : (z : ℤ) → pos 0 ≤ℤ z → (j : ℕ) × (z ≡ pos j)
as_pos (pos j) h = (j, refl)
as_pos (negsuc j) h = absurd (omega arith)

-- The delay less a quarter, plus a jitter.
jittered :
    (d j : ℕ)
    → d < 2 ^ 62
    → j ≤ d
    → wrap64 (wrap64 (pos d -ℤ pos (d / 4)) +ℤ pos j) ≡ pos (d - d / 4 + j)
jittered d j h k =
    rw
      (
        sub_pos d (d / 4) (omega arith),
        wrap64_small (d - d / 4) (omega arith),
        add_pos (d - d / 4) j,
      )
      (wrap64_small (d - d / 4 + j) (omega arith))

with_jitter-pos :
    (int64_n : ℤ → ℤ) (d : ℕ)
    → IsRandom int64_n
    → d < 2 ^ 62
    → (j : ℕ) × (j ≤ d / 2) × (with_jitter int64_n (pos d) ≡ pos (d - d / 4 + j))
unfolding with_jitter
with_jitter-pos int64_n d r h = elim (Bool-cases (ltb_ℤ (pos 0) (pos (d / 2)))) [
  | inl p ↦
      let (lo, hi) = r (pos (d / 2)) (ground arith) in
      let (j, e) = as_pos (int64_n (pos (d / 2))) lo in
      let below = subst (λ z. z <ℤ pos (d / 2)) e hi in
      (j, omega arith, rw (p, e) (jittered d j h (omega arith)))
  | inr p ↦ (0, omega arith, rw p (jittered d 0 h (omega arith)))
]

clamp_attempt-le : (attempt : ℤ) → clamp_attempt attempt ≤ 30
unfolding clamp_attempt
clamp_attempt-le (negsuc n) = omega arith
clamp_attempt-le (pos n) = ground arith

-- The multiplier of an attempt.
pub multiplier : ℤ → ℕ
multiplier attempt = 2 ^ (clamp_attempt attempt - 1)

multiplier-le : (attempt : ℤ) → multiplier attempt ≤ 2 ^ 29
unfolding multiplier
multiplier-le attempt =
    pow-le-pow_right {n = 2} (omega arith) {j = 29} (omega (arith, clamp_attempt-le attempt))

product-lt : (b k m top : ℕ) → k ≤ m → b * m < top → b * k < top
product-lt b k m top h t = grind arith

capped_delay-pos :
    (b m : ℕ) (attempt : ℤ)
    → b * 2 ^ 29 < 2 ^ 63
    → capped_delay (pos b) (pos m) attempt ≡ pos (min m (b * multiplier attempt))
unfolding capped_delay multiplier
capped_delay-pos b m attempt h =
    let fits =
      product-lt b (2 ^ (clamp_attempt attempt - 1)) (2 ^ 29) (2 ^ 63)
        (unfold multiplier in multiplier-le attempt) h in
    rw (wrap64_small (b * 2 ^ (clamp_attempt attempt - 1)) fits) (ground arith)

-- For delays that are not negative, a base delay whose product with 2^29 fits into int64, and a
-- maximal delay below 2^62 ns (146 years), every attempt waits for the capped exponential delay d,
-- give or take a quarter: between d - d/4 and d - d/4 + d/2.
pub calculate_retry_delay_bounds :
    (int64_n : ℤ → ℤ) (base_delay max_delay : ℕ) (attempt : ℤ)
    → IsRandom int64_n
    → base_delay * 2 ^ 29 < 2 ^ 63
    → max_delay < 2 ^ 62
    → (j : ℕ) × (j ≤ min max_delay (base_delay * multiplier attempt) / 2)
      × (calculate_retry_delay int64_n (pos base_delay) (pos max_delay) attempt
          ≡ pos (
              min max_delay (base_delay * multiplier attempt)
              - min max_delay (base_delay * multiplier attempt) / 4
              + j))
unfolding calculate_retry_delay
calculate_retry_delay_bounds int64_n b m attempt r fits cap =
    rw (capped_delay-pos b m attempt fits)
      (with_jitter-pos int64_n (min m (b * multiplier attempt)) r (omega arith))

-- The bits of the product are those of a negative number.
overflowed :
    (b m : ℕ)
    → 2 ^ 34 ≤ b
    → b < 2 ^ 35
    → (x : ℕ) × (x < 2 ^ 63) × (wrap64 (pos (b * 2 ^ 29)) ≡ negsuc x)
unfolding wrap64
overflowed b m lo hi = (2 ^ 64 - b * 2 ^ 29 - 1, omega arith, ground arith)

no_window : (q : ℕ) → ltb_ℤ (pos 0) (pos 0 -ℤ pos q) ≡ false
unfolding ◌-ℤ◌
no_window q = ground arith

less_quarter : (x q : ℕ) → q ≤ x → negsuc x -ℤ (pos 0 -ℤ pos q) ≡ negsuc (x - q)
unfolding ◌-ℤ◌
less_quarter x q h = ground arith

plus_zero : (x : ℕ) → negsuc x +ℤ pos 0 ≡ negsuc x
unfolding ◌+ℤ◌
plus_zero x = ground arith

with_jitter-negsuc :
    (int64_n : ℤ → ℤ) (x : ℕ) → x < 2 ^ 63 → with_jitter int64_n (negsuc x) ≡ negsuc (x - suc x / 4)
unfolding with_jitter
with_jitter-negsuc int64_n x h =
    let q = suc x / 4 in
    let small : q ≤ x = omega arith in
    rw
      (
        no_window (suc x / 2),
        less_quarter x q small,
        wrap64_negative (x - q) (omega arith),
        plus_zero (x - q),
      )
      (wrap64_negative (x - q) (omega arith))

cap_negative : (m x : ℕ) → (if ltb_ℤ (pos m) (negsuc x) then pos m else negsuc x) ≡ negsuc x
cap_negative m x = ground arith

capped_delay-overflow :
    (b m k x : ℕ)
    → wrap64 (pos (b * 2 ^ 29)) ≡ negsuc x
    → capped_delay (pos b) (pos m) (pos (k + 30)) ≡ negsuc x
unfolding capped_delay
capped_delay-overflow b m k x bits =
    let top : clamp_attempt (pos (k + 30)) ≡ 30 = unfold clamp_attempt in ground arith in
    rw (top, bits) (cap_negative m x)

-- From the 30th attempt on the multiplication overflows for every base delay from 2^34 ns (about 17
-- seconds) up to 2^35 ns: the cap does not apply and the delay is negative, so there is no wait.
pub calculate_retry_delay_overflow :
    (int64_n : ℤ → ℤ) (base_delay max_delay k : ℕ)
    → 2 ^ 34 ≤ base_delay
    → base_delay < 2 ^ 35
    → calculate_retry_delay int64_n (pos base_delay) (pos max_delay) (pos (k + 30)) <ℤ pos 0
unfolding calculate_retry_delay
calculate_retry_delay_overflow int64_n b m k lo hi =
    let (x, small, bits) = overflowed b m lo hi in
    rw (capped_delay-overflow b m k x bits, with_jitter-negsuc int64_n x small) (omega arith)
