-- ===== src/Redis/RateLimit/Sliding.antt =====
-- redis/ratelimit.go: SlidingWindowAllowN over the server's sorted sets.
pub mod Bounds
mod Tests
use txova_go_db.Prelude.{
  ℕ, zero, suc, ◌+◌, ◌≤◌, ◌≡◌, refl, ◌++◌, List, [], ◌∷◌, Option, none, some, Result, ok, err, Bool,
  true, false, Bool-cases, inl, inr, if◌then◌else◌, arith,
}
use txova_go_db.Prelude.Int.{ℤ, pos, negsuc, ◌+ℤ◌, ◌-ℤ◌, ◌<ℤ◌, ◌≤ℤ◌, ltb_ℤ, leb_ℤ, int_laws}
use txova_go_db.Text.{Text, codes}
use txova_go_db.Text.Decimal.{decimal, decimal_ℤ}
use txova_go_db.Redis.Errors.{Error}
use txova_go_db.Redis.Server.{Fault, delivered, refused, lost, call}
use txova_go_db.Redis.RateLimit.{
  RateLimiter, RateLimitResult, Reply, rate_limit_key, max_allowed, window_ms, allow_answer,
}

-- The server's commands on sorted sets, which are not in the repository: ZREMRANGEBYSCORE, ZCARD,
-- ZADD, the score of the first member by ZRANGE, and PEXPIRE.
pub record SortedSets : Type 1 where
  pub Store : Type 0
  pub zremrangebyscore : Text → ℤ → ℤ → Store → Store
  pub zcard : Text → Store → ℕ
  pub zadd : Text → ℤ → Text → Store → Store
  pub first_score : Text → Store → Option ℤ
  pub pexpire : Text → ℤ → Store → Store

-- `now_ms .. ":" .. i .. ":" .. math.random(1000000)`
abbrev pub member_of : (ℕ → ℕ) → ℤ → ℕ → Text
member_of random now i =
    decimal_ℤ now ++ (codes ":" ++ (decimal i ++ (codes ":" ++ decimal (random i))))

-- `for i = 1, n` makes this many rounds.
abbrev pub rounds_of : ℤ → ℕ
rounds_of (pos n) = n
rounds_of (negsuc n) = 0

-- The time until the oldest entry leaves the window, but not below 0.
unfoldable reset_after : Option ℤ → ℤ → ℤ → ℤ
reset_after none window now = window
reset_after (some oldest) window now =
    let reset_ms = (oldest +ℤ window) -ℤ now in if ltb_ℤ reset_ms (pos 0) then pos 0 else reset_ms

abbrev pub sliding_key : RateLimiter → Text → Text
sliding_key r identifier = rate_limit_key r (identifier ++ codes ":sliding")

-- A request at a time, with what `math.random` gives it and the fault of its call.
pub record Request : Type 0 where
  pub n : ℕ
  pub now : ℤ
  pub now_ms : ℤ
  pub random : ℕ → ℕ
  pub fault : Fault

module _ (sets : SortedSets) where
  open sets use {Store, zremrangebyscore, zcard, zadd, first_score, pexpire}

  -- What the documentation of the commands says: an element that is there already is not added again.
  pub record SetLaws : Type 0 where
    pub zcard_zadd :
        (k : Text) (score : ℤ) (member : Text) (s : Store)
        → zcard k (zadd k score member s) ≤ zcard k s + 1
    pub zcard_zremrangebyscore :
        (k : Text) (lo hi : ℤ) (s : Store) → zcard k (zremrangebyscore k lo hi s) ≤ zcard k s
    pub zcard_pexpire : (k : Text) (ms : ℤ) (s : Store) → zcard k (pexpire k ms s) ≤ zcard k s

  -- The loop from `i` on, with the rounds that are left.
  pub add_members : (ℕ → ℕ) → Text → ℤ → ℕ → ℕ → Store → Store
  add_members random key now zero i s = s
  add_members random key now (suc rounds) i s =
      add_members random key now rounds (i + 1) (zadd key now (member_of random now i) s)

  -- The script behind ZREMRANGEBYSCORE.
  pub slide_trimmed : (ℕ → ℕ) → Text → ℤ → ℤ → ℤ → ℤ → Store → Reply × Store
  slide_trimmed random key max window now n s =
      let current = pos (zcard key s) in
      let admitted = pexpire key window (add_members random key now (rounds_of n) 1 s) in
      if leb_ℤ (current +ℤ n) max
      then (
        record {
          allowed_val = 1;
          remaining = (max -ℤ current) -ℤ n;
          ttl_ms = reset_after (first_score key admitted) window now;
          total = max;
        },
        admitted,
      )
      else (
        record {
          allowed_val = 0;
          remaining = max -ℤ current;
          ttl_ms = reset_after (first_score key s) window now;
          total = max;
        },
        s,
      )

  pub slide_script : (ℕ → ℕ) → Text → ℤ → ℤ → ℤ → ℤ → Store → Reply × Store
  slide_script random key max window now n s =
      slide_trimmed random key max window now n (zremrangebyscore key (pos 0) (now -ℤ window) s)

  -- SlidingWindowAllowN at the time `now_ms`, in milliseconds, of which `now` are the nanoseconds.
  pub sliding_window_allow_n :
      RateLimiter
      → (ℕ → ℕ)
      → ℤ
      → ℤ
      → Fault
      → Text
      → ℤ
      → Store
      → Result Error RateLimitResult × Store
  sliding_window_allow_n r random now now_ms fault identifier n s =
      let (reply, s') =
        call fault
          (slide_script random (sliding_key r identifier) (max_allowed r) (window_ms r) now_ms n)
          s in
      (allow_answer now reply, s')

  -- The store after the requests, one after another.
  pub slide_all : RateLimiter → Text → List Request → Store → Store
  slide_all r identifier [] s = s
  slide_all r identifier (q ∷ rest) s =
      slide_all r identifier rest
        (sliding_window_allow_n r q.random q.now q.now_ms q.fault identifier (pos q.n) s).1
