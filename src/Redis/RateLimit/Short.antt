-- ===== src/Redis/RateLimit/Short.antt =====
-- redis/ratelimit.go: AllowN with a window below a millisecond.
use txova_go_db.Prelude.{ℕ, ◌+◌, ◌≡◌, refl, ap, List, [], ◌∷◌, none, arith, true, All}
use txova_go_db.Prelude.Int.{ℤ, pos, ◌≤ℤ◌, ◌+ℤ◌, leb_ℤ}
use txova_go_db.Text.{Text}
use txova_go_db.Redis.Server.{delivered}
use txova_go_db.Redis.RateLimit.{
  Counters, CounterLaws, RateLimiter, rate_limit_key, max_allowed, window_ms, allow_answer,
  start_window, allow_current, allow_script, allow_n,
}
use txova_go_db.Redis.RateLimit.Window.{Request, granted, run_all}

-- The units that are asked for.
abbrev pub asked : List Request → ℕ
asked [] = 0
asked (q ∷ rest) = q.n + asked rest

-- The call of the request reaches the server, and it asks for no more than the maximum.
abbrev pub IsSmall : ℤ → Request → Type 0
IsSmall max q = (q.fault ≡ delivered) × (pos q.n ≤ℤ max)

module _ (counters : Counters) (laws : CounterLaws counters) (r : RateLimiter) (identifier : Text)
    (short : window_ms r ≤ℤ pos 0) where
  open counters use {Store, get, incr_by}
  open laws use {get_pexpire_past}

  fits : (n : ℕ) (max : ℤ) → pos n ≤ℤ max → leb_ℤ (pos 0 +ℤ pos n) max ≡ true
  unfolding ◌+ℤ◌
  fits n max h = ground arith

  allow_n-short :
      (n : ℕ) (now : ℤ) (s : Store)
      → pos n ≤ℤ max_allowed r
      → get (rate_limit_key r identifier) s ≡ none
      → (granted n (allow_n counters r now delivered identifier (pos n) s).0 ≡ n)
        × (get
              (rate_limit_key r identifier)
              (allow_n counters r now delivered identifier (pos n) s).1
            ≡ none)
  unfolding allow_n allow_answer allow_script allow_current start_window
  allow_n-short n now s small fresh =
      let key = rate_limit_key r identifier in
      rw (fresh, fits n (max_allowed r) small)
        (refl, get_pexpire_past key (window_ms r) (incr_by key (pos n) s) short)

  -- A window below a millisecond limits nothing: the expiry in 0 ms deletes the count at once, so
  -- requests that follow one another from a missing key, each of no more than the maximum, are all
  -- granted, however many there are.
  pub run_all-short :
      (qs : List Request) (s : Store)
      → All (IsSmall (max_allowed r)) qs
      → get (rate_limit_key r identifier) s ≡ none
      → (run_all counters r identifier qs s).0 ≡ asked qs
  unfolding run_all
  run_all-short [] s h fresh = refl
  run_all-short (q ∷ rest) s ((reaches, small), hs) fresh =
      let (all, missing) = allow_n-short q.n q.now s small fresh in
      rw (reaches, all)
        (ap (λ k. q.n + k)
          (run_all-short rest (allow_n counters r q.now delivered identifier (pos q.n) s).1 hs
            missing))
