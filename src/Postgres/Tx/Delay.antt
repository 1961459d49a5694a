-- ===== src/Postgres/Tx/Delay.antt =====
-- `calculateRetryDelay` of postgres/txmanager.go over `int64` nanoseconds.
pub mod Bounds
use native.Mathlib.Nat.{pow-le-pow_right}
use txova_go_db.Prelude.{
  ℕ, zero, suc, ◌+◌, ◌-◌, ◌*◌, ◌/◌, ◌%◌, ◌^◌, ◌≤◌, ◌<◌, ◌≡◌, refl, arith, ltb, leb, if◌then◌else◌,
  min, false, Bool-cases, inl, inr, subst, sym,
}
use txova_go_db.Prelude.Int64.{wrap64, times, quotient}
use txova_go_db.Prelude.Int.{ℤ, pos, negsuc, pos_part, neg_part, ◌+ℤ◌, ◌-ℤ◌, ◌≤ℤ◌, ◌<ℤ◌, ltb_ℤ}

-- `attempt` between 1 and 30.
pub clamp_attempt : ℤ → ℕ
clamp_attempt (negsuc n) = 1
clamp_attempt (pos n) = if ltb n 1 then 1 else if ltb 30 n then 30 else n

-- The exponential delay under the cap.
pub capped_delay : ℤ → ℤ → ℤ → ℤ
unfolding wrap64 times clamp_attempt
capped_delay base_delay max_delay attempt =
    let delay = wrap64 (times base_delay (2 ^ (clamp_attempt attempt - 1))) in
    if ltb_ℤ max_delay delay then max_delay else delay

-- `rand.Int64N` is an argument.
pub with_jitter : (ℤ → ℤ) → ℤ → ℤ
unfolding wrap64 quotient ◌+ℤ◌ ◌-ℤ◌
with_jitter int64_n delay =
    let half_window = quotient delay 2 in
    let jitter = if ltb_ℤ (pos 0) half_window then int64_n half_window else pos 0 in
    wrap64 (wrap64 (delay -ℤ quotient delay 4) +ℤ jitter)

pub calculate_retry_delay : (ℤ → ℤ) → ℤ → ℤ → ℤ → ℤ
unfolding capped_delay with_jitter
calculate_retry_delay int64_n base_delay max_delay attempt =
    with_jitter int64_n (capped_delay base_delay max_delay attempt)
