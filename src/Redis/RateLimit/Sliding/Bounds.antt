-- ===== src/Redis/RateLimit/Sliding/Bounds.antt =====
-- redis/ratelimit.go: how many entries SlidingWindowAllowN keeps.
use txova_go_db.Prelude.{ℕ, zero, suc, ◌+◌, ◌≤◌, List, [], ◌∷◌, Bool-cases, inl, inr, arith}
use txova_go_db.Prelude.Int.{ℤ, pos, ◌+ℤ◌, ◌-ℤ◌, ◌≤ℤ◌, leb_ℤ, int_laws}
use txova_go_db.Text.{Text}
use txova_go_db.Redis.Server.{Fault, delivered, refused, lost}
use txova_go_db.Redis.RateLimit.{RateLimiter, max_allowed, window_ms}
use txova_go_db.Redis.RateLimit.Sliding.{
  SortedSets, SetLaws, member_of, add_members, slide_trimmed, slide_script, sliding_key,
  sliding_window_allow_n, Request, slide_all,
}

module _ (sets : SortedSets) (laws : SetLaws sets) where
  open sets use {Store, zremrangebyscore, zcard, zadd, pexpire}
  open laws use {zcard_zadd, zcard_zremrangebyscore, zcard_pexpire}

  zcard-add_members :
      (random : ℕ → ℕ) (key : Text) (now : ℤ) (rounds i : ℕ) (s : Store)
      → zcard key (add_members sets random key now rounds i s) ≤ zcard key s + rounds
  unfolding add_members
  zcard-add_members random key now zero i s = omega arith
  zcard-add_members random key now (suc rounds) i s =
      let member = member_of random now i in
      omega (
        arith,
        zcard-add_members random key now rounds (i + 1) (zadd key now member s),
        zcard_zadd key now member s,
      )

  slide_trimmed-bounded :
      (random : ℕ → ℕ) (key : Text) (max window now : ℤ) (n : ℕ) (s : Store)
      → pos (zcard key s) ≤ℤ max
      → pos (zcard key (slide_trimmed sets random key max window now (pos n) s).1) ≤ℤ max
  unfolding slide_trimmed
  slide_trimmed-bounded random key max window now n s h =
      let grown = add_members sets random key now n 1 s in
      let few = zcard-add_members random key now n 1 s in
      let kept = zcard_pexpire key window grown in
      elim (Bool-cases (leb_ℤ (pos (zcard key s) +ℤ pos n) max)) [
        | inl e ↦
            let fits : (pos (zcard key s) +ℤ pos n) ≤ℤ max = ground arith in
            rw e (grind (int_laws, few, kept, fits))
        | inr e ↦ rw e h
      ]

  slide_script-bounded :
      (random : ℕ → ℕ) (key : Text) (max window now : ℤ) (n : ℕ) (s : Store)
      → pos (zcard key s) ≤ℤ max
      → pos (zcard key (slide_script sets random key max window now (pos n) s).1) ≤ℤ max
  unfolding slide_script
  slide_script-bounded random key max window now n s h =
      let fewer = zcard_zremrangebyscore key (pos 0) (now -ℤ window) s in
      slide_trimmed-bounded random key max window now n
        (zremrangebyscore key (pos 0) (now -ℤ window) s) (omega (arith, fewer, h))

  sliding_window_allow_n-bounded :
      (r : RateLimiter) (random : ℕ → ℕ) (now now_ms : ℤ) (fault : Fault) (identifier : Text)
      (n : ℕ) (s : Store)
      → pos (zcard (sliding_key r identifier) s) ≤ℤ max_allowed r
      → pos (
          zcard
            (sliding_key r identifier)
            (sliding_window_allow_n sets r random now now_ms fault identifier (pos n) s).1)
        ≤ℤ max_allowed r
  unfolding sliding_window_allow_n
  sliding_window_allow_n-bounded r random now now_ms (refused e) identifier n s h = h
  sliding_window_allow_n-bounded r random now now_ms (lost e) identifier n s h =
      slide_script-bounded random (sliding_key r identifier) (max_allowed r) (window_ms r) now_ms n
        s h
  sliding_window_allow_n-bounded r random now now_ms delivered identifier n s h =
      slide_script-bounded random (sliding_key r identifier) (max_allowed r) (window_ms r) now_ms n
        s h

  -- The sorted set of the sliding window never holds more than max + burst entries: if it holds no
  -- more at the start then, after any requests at any times, whatever happens to their calls and
  -- whatever math.random returns, it holds no more.
  pub slide_all-bounded :
      (r : RateLimiter) (identifier : Text) (qs : List Request) (s : Store)
      → pos (zcard (sliding_key r identifier) s) ≤ℤ max_allowed r
      → pos (zcard (sliding_key r identifier) (slide_all sets r identifier qs s)) ≤ℤ max_allowed r
  unfolding slide_all
  slide_all-bounded r identifier [] s h = h
  slide_all-bounded r identifier (q ∷ rest) s h =
      slide_all-bounded r identifier rest
        (sliding_window_allow_n sets r q.random q.now q.now_ms q.fault identifier (pos q.n) s).1
        (sliding_window_allow_n-bounded r q.random q.now q.now_ms q.fault identifier q.n s h)
