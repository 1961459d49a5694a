-- ===== src/Redis/RateLimit.antt =====
-- redis/ratelimit.go: the fixed-window limiter over the server's counters.
pub mod Window
pub mod Status
pub mod Short
pub mod Sliding
mod Options
mod Tests
use txova_go_db.Prelude.{
  ℕ, ◌≡◌, ◌++◌, Bool, true, false, Option, none, some, Result, ok, err, ◌==◌, if◌then◌else◌,
}
use txova_go_db.Prelude.Int.{ℤ, pos, negsuc, ◌+ℤ◌, ◌-ℤ◌, ◌<ℤ◌, ◌≤ℤ◌, ltb_ℤ, leb_ℤ}
use txova_go_db.Prelude.Int64.{wrap64, times, quotient}
use txova_go_db.Text.{Text, codes}
use txova_go_db.Redis.Errors.{Error, from_redis_error}
use txova_go_db.Redis.Server.{Fault, call}

-- The server's commands on keys that hold a number, which are not in the repository: GET read as a
-- number, INCRBY, PEXPIRE and PTTL in milliseconds, DEL.
pub record Counters : Type 1 where
  pub Store : Type 0
  pub get : Text → Store → Option ℤ
  pub incr_by : Text → ℤ → Store → Store
  pub pexpire : Text → ℤ → Store → Store
  pub pttl : Text → Store → ℤ
  pub del : Text → Store → Store

-- A missing key counts as 0.
abbrev pub number : Option ℤ → ℤ
number none = pos 0
number (some n) = n

-- What the documentation of the commands says.
module _ (counters : Counters) where
  open counters use {Store, get, incr_by, pexpire}

  pub record CounterLaws : Type 0 where
    pub get_incr_by :
        (k : Text) (n : ℤ) (s : Store) → get k (incr_by k n s) ≡ some (number (get k s) +ℤ n)
    pub get_pexpire :
        (k : Text) (ms : ℤ) (s : Store) → pos 0 <ℤ ms → get k (pexpire k ms s) ≡ get k s
    pub get_pexpire_past :
        (k : Text) (ms : ℤ) (s : Store) → ms ≤ℤ pos 0 → get k (pexpire k ms s) ≡ none

pub record RateLimitResult : Type 0 where
  pub allowed : Bool
  pub remaining : ℤ
  pub reset_at : ℤ
  pub total : ℤ

-- The window is a duration in nanoseconds.
pub record RateLimiter : Type 0 where
  pub key_prefix : Text
  pub window : ℤ
  pub max_reqs : ℤ
  pub burst : ℤ

-- `NewRateLimiter` without options.
unfoldable pub new_rate_limiter : RateLimiter
new_rate_limiter = record {
  key_prefix = codes "ratelimit";
  window = pos 60000000000;
  max_reqs = pos 100;
  burst = pos 0;
}

pub rate_limit_key : RateLimiter → Text → Text
rate_limit_key r identifier = r.key_prefix ++ (codes ":" ++ identifier)

-- `r.maxReqs + r.burst`
pub max_allowed : RateLimiter → ℤ
max_allowed r = wrap64 (r.max_reqs +ℤ r.burst)

-- `r.window.Milliseconds()`
pub window_ms : RateLimiter → ℤ
window_ms r = quotient r.window 1000000

-- `time.Now().Add(time.Duration(ms) * time.Millisecond)`
unfoldable reset_time : ℤ → ℤ → ℤ
reset_time now ms = now +ℤ wrap64 (times ms 1000000)

-- The four numbers that the script returns.
pub record Reply : Type 0 where
  pub allowed_val : ℕ
  pub remaining : ℤ
  pub ttl_ms : ℤ
  pub total : ℤ

-- The result of AllowN for the reply of the script.
pub allow_answer : ℤ → Result Error Reply → Result Error RateLimitResult
allow_answer now (err e) = err (from_redis_error e)
allow_answer now (ok r) = ok (record {
  allowed = r.allowed_val == 1;
  remaining = r.remaining;
  reset_at = reset_time now r.ttl_ms;
  total = r.total;
})

-- `if remaining < 0 { remaining = 0 }`
pub clamp_remaining : ℤ → ℤ
clamp_remaining remaining = if ltb_ℤ remaining (pos 0) then pos 0 else remaining

module _ (counters : Counters) where
  open counters use {Store, get, incr_by, pexpire, pttl, del}

  -- `if is_new_window then PEXPIRE …`
  pub start_window : Option ℤ → Text → ℤ → Store → Store
  start_window none key window s = pexpire key window s
  start_window (some n) key window s = s

  -- The TTL that the script reports.
  unfoldable ttl_or : ℤ → ℤ → ℤ
  ttl_or ttl window = if ltb_ℤ ttl (pos 0) then window else ttl

  -- The script behind GET.
  pub allow_current : Option ℤ → Text → ℤ → ℤ → ℤ → Store → Reply × Store
  allow_current found key max window n s =
      let current = number found in
      let admitted = start_window found key window (incr_by key n s) in
      if leb_ℤ (current +ℤ n) max
      then (
        record {
          allowed_val = 1;
          remaining = (max -ℤ current) -ℤ n;
          ttl_ms = ttl_or (pttl key admitted) window;
          total = max;
        },
        admitted,
      )
      else (
        record {
          allowed_val = 0;
          remaining = max -ℤ current;
          ttl_ms = ttl_or (pttl key s) window;
          total = max;
        },
        s,
      )

  -- The script of AllowN.
  pub allow_script : Text → ℤ → ℤ → ℤ → Store → Reply × Store
  allow_script key max window n s = allow_current (get key s) key max window n s

  pub allow_n : RateLimiter → ℤ → Fault → Text → ℤ → Store → Result Error RateLimitResult × Store
  allow_n r now fault identifier n s =
      let (reply, s') =
        call fault (allow_script (rate_limit_key r identifier) (max_allowed r) (window_ms r) n) s in
      (allow_answer now reply, s')

  pub allow : RateLimiter → ℤ → Fault → Text → Store → Result Error RateLimitResult × Store
  allow r now fault identifier = allow_n r now fault identifier (pos 1)

  -- The two keys of an identifier are deleted.
  unfoldable reset : RateLimiter → Fault → Text → Store → Option Error × Store
  reset r fault identifier s =
      let key = rate_limit_key r identifier in
      let sliding_key = rate_limit_key r (identifier ++ codes ":sliding") in
      let (reply, s') = call fault (λ st. (tt, del sliding_key (del key st))) s in
      (elim reply [ ok _ ↦ none | err e ↦ some (from_redis_error e) ], s')

  -- The result of GetStatus for the replies of GET and PTTL.
  pub status_answer : RateLimiter → ℤ → Result Error (Option ℤ × ℤ) → Result Error RateLimitResult
  status_answer r now (err e) = err (from_redis_error e)
  status_answer r now (ok (found, ttl)) =
      let remaining = clamp_remaining (wrap64 (max_allowed r -ℤ number found)) in
      ok (record {
        allowed = ltb_ℤ (pos 0) remaining;
        remaining = remaining;
        reset_at = reset_time now (if ltb_ℤ (pos 0) ttl then ttl else window_ms r);
        total = max_allowed r;
      })

  pub get_status : RateLimiter → ℤ → Fault → Text → Store → Result Error RateLimitResult × Store
  get_status r now fault identifier s =
      let key = rate_limit_key r identifier in
      let (reply, s') = call fault (λ st. ((get key st, pttl key st), st)) s in
      (status_answer r now reply, s')
