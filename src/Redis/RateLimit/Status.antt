-- ===== src/Redis/RateLimit/Status.antt =====
-- redis/ratelimit.go: `GetStatus` against what the next `Allow` answers.
use txova_go_db.Prelude.{
  ℕ, ◌-◌, ◌<◌, ◌^◌, ◌≡◌, refl, sym, ap, ◌∙◌, Bool, true, false, ok, if◌then◌else◌, arith, ◌==◌,
}
use txova_go_db.Prelude.Int.{ℤ, pos, ◌+ℤ◌, ◌-ℤ◌, ltb_ℤ, leb_ℤ}
use txova_go_db.Prelude.Int64.{wrap64}
use txova_go_db.Text.{Text}
use txova_go_db.Redis.Server.{delivered}
use txova_go_db.Redis.RateLimit.{
  Counters, number, RateLimiter, RateLimitResult, rate_limit_key, max_allowed, window_ms,
  allow_answer, allow_current, allow_script, allow_n, allow, clamp_remaining, status_answer,
  get_status,
}

-- No overflow between two numbers that are not negative.
clamp-difference :
    (m c : ℕ) → m < 2 ^ 63 → c < 2 ^ 63 → clamp_remaining (wrap64 (pos m -ℤ pos c)) ≡ pos (m - c)
unfolding clamp_remaining wrap64 ◌-ℤ◌
clamp-difference m c hm hc = ground arith

one_fits : (m c : ℕ) → ltb_ℤ (pos 0) (pos (m - c)) ≡ leb_ℤ (pos c +ℤ pos 1) (pos m)
unfolding ◌+ℤ◌
one_fits m c = ground arith

if-one : (b : Bool) → ((if b then 1 else 0) == 1) ≡ b
if-one true = refl
if-one false = refl

module _ (counters : Counters) where
  open counters use {Store, get}

  allowed-script :
      (key : Text) (max window n : ℤ) (s : Store)
      → ((allow_script counters key max window n s).0.allowed_val == 1)
        ≡ leb_ℤ (number (get key s) +ℤ n) max
  unfolding allow_script allow_current
  allowed-script key max window n s = ground arith

  -- For a maximum and a count that are not negative, and calls that reach the server, GetStatus
  -- changes nothing and allows exactly what the next Allow allows; it leaves max + burst less the
  -- count, or 0.
  pub get_status-predicts :
      (r : RateLimiter) (now later : ℤ) (identifier : Text) (m c : ℕ) (s : Store)
      → max_allowed r ≡ pos m
      → m < 2 ^ 63
      → number (get (rate_limit_key r identifier) s) ≡ pos c
      → c < 2 ^ 63
      → (a : RateLimitResult) × (b : RateLimitResult) × (get_status counters r now delivered
            identifier s
          ≡ (ok a, s))
        × ((allow counters r later delivered identifier s).0 ≡ ok b)
        × (a.allowed ≡ b.allowed)
        × (a.remaining ≡ pos (m - c))
  unfolding get_status status_answer allow allow_n allow_answer
  get_status-predicts r now later identifier m c s max hm count hc =
      let left : clamp_remaining
            (wrap64 (max_allowed r -ℤ number (get (rate_limit_key r identifier) s)))
          ≡ pos (m - c) =
        rw (max, count) (clamp-difference m c hm hc) in
      let next : ((allow_script counters (rate_limit_key r identifier) (max_allowed r) (window_ms r)
              (pos 1) s).0.allowed_val
            == 1)
          ≡ leb_ℤ (pos c +ℤ pos 1) (pos m) =
        allowed-script (rate_limit_key r identifier) (max_allowed r) (window_ms r) (pos 1) s
        ∙ (λ i. leb_ℤ (count i +ℤ pos 1) (max i)) in
      (_, _, refl, refl, ap (λ z. ltb_ℤ (pos 0) z) left ∙ one_fits m c ∙ sym next, left)
