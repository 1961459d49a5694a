-- ===== src/Redis/RateLimit/Tests.antt =====
-- The theorems on the limiter at counters that are a function of the key.
use txova_go_db.Prelude.{
  ◌≡◌, refl, List, [], ◌∷◌, Option, none, some, true, false, ok, All, arith, if◌then◌else◌,
}
use txova_go_db.Prelude.Int.{ℤ, pos, ◌+ℤ◌, ◌≤ℤ◌, ◌<ℤ◌, ltb_ℤ}
use txova_go_db.Prelude.Int64.{wrap64, quotient}
use txova_go_db.Text.{Text, codes, text_eq}
use txova_go_db.Text.Equality.{text_eq_refl}
use txova_go_db.Redis.Errors.{Error}
use txova_go_db.Redis.Server.{delivered, lost}
use txova_go_db.Redis.RateLimit.{
  Counters, CounterLaws, number, RateLimiter, RateLimitResult, rate_limit_key, max_allowed,
  window_ms, allow, get_status,
}
use txova_go_db.Redis.RateLimit.Window.{Request, run_all, run_all-bounded}
use txova_go_db.Redis.RateLimit.Status.{get_status-predicts}
use txova_go_db.Redis.RateLimit.Short.{IsSmall}

abbrev Numbers : Type 0
Numbers = Text → Option ℤ

abbrev put : Text → Option ℤ → Numbers → Numbers
put k v s = λ k'. if text_eq k k' then v else s k'

abbrev mapped : Counters
mapped = record {
  Store = Numbers;
  get = λ k s. s k;
  incr_by = λ k n s. put k (some (number (s k) +ℤ n)) s;
  pexpire = λ k ms s. if ltb_ℤ (pos 0) ms then s else put k none s;
  pttl = λ k s. pos 1;
  del = λ k s. put k none s;
}

mapped-CounterLaws : CounterLaws mapped
mapped-CounterLaws = record {
  get_incr_by = λ k n s. rw (text_eq_refl k) refl;
  get_pexpire = λ k ms s h. let later : ltb_ℤ (pos 0) ms ≡ true = ground arith in rw later refl;
  get_pexpire_past = λ k ms s h.
      let past : ltb_ℤ (pos 0) ms ≡ false = ground arith in rw (past, text_eq_refl k) refl;
}

abbrev empty : Numbers
empty k = none

-- Three units and one extra in a minute, and in half a millisecond.
abbrev limiter : RateLimiter
limiter = record {
  key_prefix = codes "r";
  window = pos 60000000000;
  max_reqs = pos 3;
  burst = pos 1;
}

abbrev hasty : RateLimiter
hasty = record { key_prefix = codes "r"; window = pos 500000; max_reqs = pos 3; burst = pos 1 }

abbrev requests : List Request
requests =
    record { n = 2; now = pos 0; fault = delivered }
    ∷ record { n = 1; now = pos 5; fault = lost (Error.other (codes "EOF")) }
    ∷ record { n = 3; now = pos 6; fault = delivered }
    ∷ record { n = 1; now = pos 7; fault = delivered }
    ∷ []

abbrev small_requests : List Request
small_requests =
    record { n = 4; now = pos 0; fault = delivered }
    ∷ record { n = 3; now = pos 1; fault = delivered }
    ∷ []

limiter-window : pos 0 <ℤ window_ms limiter
unfolding window_ms quotient
limiter-window = omega arith

limiter-max : max_allowed limiter ≡ pos 4
unfolding max_allowed wrap64 ◌+ℤ◌
limiter-max = refl

empty-below : number (empty (rate_limit_key limiter (codes "u"))) ≤ℤ max_allowed limiter
empty-below = rw limiter-max (omega arith)

run_all-bounded_example :
    ((pos (run_all mapped limiter (codes "u") requests empty).0
        +ℤ number (empty (rate_limit_key limiter (codes "u"))))
      ≤ℤ number (
          (run_all mapped limiter (codes "u") requests empty).1
            (rate_limit_key limiter (codes "u"))))
    × (number (
          (run_all mapped limiter (codes "u") requests empty).1
            (rate_limit_key limiter (codes "u")))
        ≤ℤ max_allowed limiter)
run_all-bounded_example =
    run_all-bounded mapped mapped-CounterLaws limiter (codes "u") limiter-window requests empty
      empty-below

get_status-predicts_example :
    (a : RateLimitResult) × (b : RateLimitResult) × (get_status mapped limiter
        (pos 0)
        delivered
        (codes "u")
        empty
      ≡ (ok a, empty))
    × ((allow mapped limiter (pos 9) delivered (codes "u") empty).0 ≡ ok b)
    × (a.allowed ≡ b.allowed)
    × (a.remaining ≡ pos 4)
get_status-predicts_example =
    get_status-predicts mapped limiter (pos 0) (pos 9) (codes "u") 4 0 empty limiter-max
      (omega arith) refl (omega arith)

hasty-window : window_ms hasty ≤ℤ pos 0
unfolding window_ms quotient
hasty-window = omega arith

hasty-max : max_allowed hasty ≡ pos 4
unfolding max_allowed wrap64 ◌+ℤ◌
hasty-max = refl

small_requests-IsSmall : All (IsSmall (max_allowed hasty)) small_requests
small_requests-IsSmall = rw hasty-max ((refl, omega arith), ((refl, omega arith), tt))
