-- ===== src/Redis/RateLimit/Window.antt =====
-- redis/ratelimit.go: what the fixed window of AllowN admits.
use txova_go_db.Prelude.{
  ℕ, ◌+◌, ◌≤◌, ◌≡◌, refl, ◌∙◌, ◌⊎◌, inl, inr, List, [], ◌∷◌, Option, none, some, Result, ok, err,
  Bool-cases, if◌then◌else◌, arith,
}
use txova_go_db.Prelude.Int.{ℤ, pos, ◌+ℤ◌, ◌≤ℤ◌, ◌<ℤ◌, leb_ℤ, int_laws}
use txova_go_db.Text.{Text}
use txova_go_db.Redis.Errors.{Error}
use txova_go_db.Redis.Server.{Fault, delivered, refused, lost}
use txova_go_db.Redis.RateLimit.{
  Counters, CounterLaws, number, RateLimiter, RateLimitResult, rate_limit_key, max_allowed,
  window_ms, allow_answer, start_window, allow_current, allow_script, allow_n,
}

-- A request for `n` units at a time, with the fault of its call.
pub record Request : Type 0 where
  pub n : ℕ
  pub now : ℤ
  pub fault : Fault

-- The units that a result admits.
abbrev pub granted : ℕ → Result Error RateLimitResult → ℕ
granted n (err e) = 0
granted n (ok r) = if r.allowed then n else 0

module _ (counters : Counters) where
  open counters use {Store, get, incr_by}

  -- The units that the requests were granted, one after another, and the store after them.
  unfoldable pub run_all : RateLimiter → Text → List Request → Store → ℕ × Store
  run_all r identifier [] s = (0, s)
  run_all r identifier (q ∷ rest) s =
      let (answer, s') = allow_n counters r q.now q.fault identifier (pos q.n) s in
      let (total, end) = run_all r identifier rest s' in (granted q.n answer + total, end)

  module _ (laws : CounterLaws counters) (key : Text) (max window : ℤ)
      (lasting : pos 0 <ℤ window) where
    open laws use {get_incr_by, get_pexpire}

    get-start_window :
        (found : Option ℤ) (s : Store)
        → get key (start_window counters found key window s) ≡ get key s
    unfolding start_window
    get-start_window none s = get_pexpire key window s lasting
    get-start_window (some n) s = refl

    -- The script counts what it admits, and nothing else, up to the maximum.
    allow_script-counts :
        (n : ℕ) (s : Store)
        → ((allow_script counters key max window (pos n) s).0.allowed_val ≡ 1
            × (get key (allow_script counters key max window (pos n) s).1
                ≡ some (number (get key s) +ℤ pos n))
            × ((number (get key s) +ℤ pos n) ≤ℤ max))
          ⊎ ((allow_script counters key max window (pos n) s).0.allowed_val ≡ 0
              × ((allow_script counters key max window (pos n) s).1 ≡ s))
    unfolding allow_script allow_current
    allow_script-counts n s = elim (Bool-cases (leb_ℤ (number (get key s) +ℤ pos n) max)) [
      | inl e ↦ rw e (
          inl (
            refl,
            get-start_window (get key s) (incr_by key (pos n) s) ∙ get_incr_by key (pos n) s,
            ground arith,
          ))
      | inr e ↦ rw e (inr (refl, refl))
    ]

    -- The count behind a script that was run, with what it was granted at most.
    script-bounded :
        (n g : ℕ) (s : Store)
        → ((allow_script counters key max window (pos n) s).0.allowed_val ≡ 1 → g ≤ n)
        → ((allow_script counters key max window (pos n) s).0.allowed_val ≡ 0 → g ≡ 0)
        → number (get key s) ≤ℤ max
        → ((pos g +ℤ number (get key s))
            ≤ℤ number (get key (allow_script counters key max window (pos n) s).1))
          × (number (get key (allow_script counters key max window (pos n) s).1) ≤ℤ max)
    script-bounded n g s some_units no_units h = elim (allow_script-counts n s) [
      | inl (e, count, below) ↦ let few = some_units e in rw count (grind (int_laws, few), below)
      | inr (e, same) ↦ let zero_units = no_units e in rw (same, zero_units) (grind int_laws, h)
    ]

  module _ (laws : CounterLaws counters) (r : RateLimiter) (identifier : Text)
      (lasting : pos 0 <ℤ window_ms r) where
    abbrev count : Store → ℤ
    count s = number (get (rate_limit_key r identifier) s)

    allow_n-bounded :
        (n : ℕ) (now : ℤ) (fault : Fault) (s : Store)
        → count s ≤ℤ max_allowed r
        → ((pos (granted n (allow_n counters r now fault identifier (pos n) s).0) +ℤ count s)
            ≤ℤ count (allow_n counters r now fault identifier (pos n) s).1)
          × (count (allow_n counters r now fault identifier (pos n) s).1 ≤ℤ max_allowed r)
    unfolding allow_n allow_answer
    allow_n-bounded n now (refused e) s h = (grind int_laws, h)
    allow_n-bounded n now (lost e) s h =
        script-bounded laws (rate_limit_key r identifier) (max_allowed r) (window_ms r) lasting n 0
          s (λ _. omega arith) (λ _. refl) h
    allow_n-bounded n now delivered s h =
        script-bounded laws (rate_limit_key r identifier) (max_allowed r) (window_ms r) lasting n _
          s (λ e. rw e (omega arith)) (λ e. rw e refl) h

    -- Requests that follow one another within a window are granted no more than the maximum,
    -- whatever happens to their calls: if the window lasts at least a millisecond and the count is at
    -- most max + burst at the start, then the units granted and the count at the start are together
    -- at most the count at the end, and that is at most max + burst. The window does not expire and
    -- is not reset meanwhile.
    pub run_all-bounded :
        (qs : List Request) (s : Store)
        → number (get (rate_limit_key r identifier) s) ≤ℤ max_allowed r
        → ((pos (run_all r identifier qs s).0 +ℤ number (get (rate_limit_key r identifier) s))
            ≤ℤ number (get (rate_limit_key r identifier) (run_all r identifier qs s).1))
          × (number (get (rate_limit_key r identifier) (run_all r identifier qs s).1)
              ≤ℤ max_allowed r)
    unfolding run_all
    run_all-bounded [] s h = (grind int_laws, h)
    run_all-bounded (q ∷ rest) s h =
        let (first, below) = allow_n-bounded q.n q.now q.fault s h in
        let s' = (allow_n counters r q.now q.fault identifier (pos q.n) s).1 in
        let (others, end) = run_all-bounded rest s' below in (grind (int_laws, first, others), end)
