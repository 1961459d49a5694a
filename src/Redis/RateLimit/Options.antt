-- ===== src/Redis/RateLimit/Options.antt =====
-- redis/ratelimit.go: the options of `RateLimiter` and the two limiters with a prefix of their own.
use txova_go_db.Prelude.{ℕ, zero, suc, ap, arith, ◌≡◌, ◌≢◌, refl, List, [], ◌∷◌}
use txova_go_db.Prelude.Int.{ℤ}
use txova_go_db.Text.{Text, codes}
use txova_go_db.Redis.RateLimit.{RateLimiter, new_rate_limiter, rate_limit_key}

-- `RateLimiterOption`; the logger is left out.
pub data RateLimiterOption : Type 0 where
  with_rate_limit_key_prefix : Text → RateLimiterOption
  with_rate_limit_window with_rate_limit_max with_rate_limit_burst : ℤ → RateLimiterOption

abbrev apply_option : RateLimiterOption → RateLimiter → RateLimiter
apply_option (with_rate_limit_key_prefix prefix) r = record r { key_prefix = prefix }
apply_option (with_rate_limit_window window) r = record r { window = window }
apply_option (with_rate_limit_max max_reqs) r = record r { max_reqs = max_reqs }
apply_option (with_rate_limit_burst burst) r = record r { burst = burst }

abbrev pub apply_options : List RateLimiterOption → RateLimiter → RateLimiter
apply_options [] r = r
apply_options (opt ∷ opts) r = apply_options opts (apply_option opt r)

-- `NewRateLimiter`
pub configured_limiter : List RateLimiterOption → RateLimiter
configured_limiter opts = apply_options opts new_rate_limiter

pub user_rate_limiter : ℤ → ℤ → List RateLimiterOption → RateLimiter
unfolding configured_limiter
user_rate_limiter max_reqs window opts = configured_limiter (
    with_rate_limit_key_prefix (codes "ratelimit:user")
    ∷ with_rate_limit_max max_reqs
    ∷ with_rate_limit_window window
    ∷ opts)

pub ip_rate_limiter : ℤ → ℤ → List RateLimiterOption → RateLimiter
unfolding configured_limiter
ip_rate_limiter max_reqs window opts = configured_limiter (
    with_rate_limit_key_prefix (codes "ratelimit:ip")
    ∷ with_rate_limit_max max_reqs
    ∷ with_rate_limit_window window
    ∷ opts)

-- The code point at a position.
abbrev at : ℕ → Text → ℕ
at n [] = 0
at zero (c ∷ s) = c
at (suc n) (c ∷ s) = at n s

-- Without options the limiters of users and of addresses count under different keys, with the
-- maximum and the window that they are given.
pub user_rate_limiter-apart :
    (max_reqs window max_reqs' window' : ℤ) (user ip : Text)
    → (rate_limit_key (user_rate_limiter max_reqs window []) user
        ≢ rate_limit_key (ip_rate_limiter max_reqs' window' []) ip)
      × ((user_rate_limiter max_reqs window []).max_reqs ≡ max_reqs)
      × ((user_rate_limiter max_reqs window []).window ≡ window)
unfolding user_rate_limiter ip_rate_limiter rate_limit_key new_rate_limiter
user_rate_limiter-apart m w m' w' user ip =
    (λ e. let first = ap (at 10) e in omega (arith, first), refl, refl)
