-- ===== src/Redis/Lock/Progress.antt =====
-- redis/lock.go: AcquireWithRetryAndTTL gets the lock when the key becomes free in time.
use txova_go_db.Prelude.{
  ℕ, zero, suc, ◌+◌, ◌<◌, ◌≡◌, refl, sym, inl, inr, Bool, true, false, Option, none, some, Result,
  ok, err, Option-cases, subst, arith,
}
use txova_go_db.Prelude.Int.{ℤ, pos, ◌≤ℤ◌}
use txova_go_db.Text.{Text}
use txova_go_db.Redis.Errors.{Error}
use txova_go_db.Redis.Server.{delivered, Server, Laws}
use txova_go_db.Redis.Lock.{
  Lock, Locker, World, lock_key, rounds_of, acquire_answer, acquire_with_ttl, after_acquire,
  acquire_loop, acquire_with_retry_and_ttl,
}
use txova_go_db.Redis.Lock.Holding.{acquire_with_ttl-held}
use txova_go_db.Redis.Lock.Acquiring.{contended, contended-lock_failed, slept}

module _ (server : Server) (laws : Laws server) where
  open server use {Store, lookup, set_nx}
  open laws use {set_nx_free}

  -- The reply of SETNX decides.
  acquire_answer-true :
      (lock : Lock) (reply : Bool) → reply ≡ true → acquire_answer lock (ok reply) ≡ ok lock
  unfolding acquire_answer
  acquire_answer-true lock true h = refl
  acquire_answer-true lock false h = cc

  acquire_with_ttl-free :
      (l : Locker) (owner : Text) (now : ℤ) (resource : Text) (ttl : ℤ) (s : Store)
      → pos 0 ≤ℤ ttl
      → lookup (lock_key l resource) s ≡ none
      → (lock : Lock) × ((acquire_with_ttl server l owner now delivered resource ttl s).0 ≡ ok lock)
  unfolding acquire_with_ttl
  acquire_with_ttl-free l owner now resource ttl s h free =
      (_, acquire_answer-true _ _ (set_nx_free (lock_key l resource) owner ttl s h free))

  after_acquire-got :
      (is_done : Bool) (ctx_error : Error) (answer : Result Error Lock) (s : Store)
      (again : Error → Result Error Lock × Store) {lock : Lock}
      → answer ≡ ok lock
      → (after_acquire server is_done ctx_error answer s again).0 ≡ ok lock
  unfolding after_acquire
  after_acquire-got is_done ctx_error (ok lock') s again h = h
  after_acquire-got is_done ctx_error (err e) s again h = cc

  module _ (w : World Store) (l : Locker) (resource : Text) (ttl : ℤ) (lasting : pos 0 ≤ℤ ttl)
      (delivers : (i : ℕ) → w.fault i ≡ delivered) (waits : (i : ℕ) → w.is_done i ≡ false) where
    first_attempt :
        (i : ℕ) (s : Store)
        → lookup (lock_key l resource) s ≡ none
        → (lock : Lock) × ((acquire_with_ttl server l
              (w.owner i)
              (w.now i)
              (w.fault i)
              resource
              ttl
              s).0
            ≡ ok lock)
    first_attempt i s free =
        subst
          (λ f.
            (lock : Lock) × ((acquire_with_ttl server l (w.owner i) (w.now i) f resource ttl s).0
              ≡ ok lock))
          (sym (delivers i))
          (acquire_with_ttl-free l (w.owner i) (w.now i) resource ttl s lasting free)

    next_attempt :
        (i : ℕ) (v : Text) (s : Store)
        → lookup (lock_key l resource) s ≡ some v
        → acquire_with_ttl server l (w.owner i) (w.now i) (w.fault i) resource ttl s
          ≡ (err contended, s)
    next_attempt i v s held =
        subst
          (λ f.
            acquire_with_ttl server l (w.owner i) (w.now i) f resource ttl s ≡ (err contended, s))
          (sym (delivers i))
          (acquire_with_ttl-held server laws l (w.owner i) v (w.now i) resource ttl s held)

    after_contention :
        (i : ℕ) (s : Store) (again : Error → Result Error Lock × Store)
        → after_acquire server (w.is_done i) w.ctx_error (err contended) s again ≡ again contended
    unfolding after_acquire
    after_contention i s again = rw (contended-lock_failed, waits i) refl

    acquire_loop-freed :
        (k rounds i : ℕ) (last : Option Error) (s : Store)
        → k < rounds
        → lookup (lock_key l resource) (slept w i k s) ≡ none
        → (lock : Lock) × ((acquire_loop server w l resource ttl rounds i last s).0 ≡ ok lock)
    unfolding acquire_loop
    acquire_loop-freed k zero i last s h free = absurd (omega arith)
    acquire_loop-freed zero (suc n) i last s h free =
        let (lock, got) = first_attempt i s free in (lock, after_acquire-got _ _ _ _ _ got)
    acquire_loop-freed (suc k) (suc n) i last s h free =
        elim (Option-cases (lookup (lock_key l resource) s)) [
          | inl now_free ↦
              let (lock, got) = first_attempt i s now_free in
              (lock, after_acquire-got _ _ _ _ _ got)
          | inr (v, held) ↦
              let again : Error → Result Error Lock × Store =
                λ e. acquire_loop server w l resource ttl n (i + 1) (some e) (w.sleep i s) in
              rw (next_attempt i v s held, after_contention i s again)
                (acquire_loop-freed k n (i + 1) (some contended) (w.sleep i s) (omega arith) free)
        ]

    -- If the time to live is not negative, every call reaches the server, the context is never done,
    -- and the key is free after one of the sleeps that RetryCount leaves time for, then
    -- AcquireWithRetryAndTTL returns a lock.
    pub acquire_with_retry_and_ttl-freed :
        (k : ℕ) (s : Store)
        → k < rounds_of l.retry_count
        → lookup (lock_key l resource) (slept w 0 k s) ≡ none
        → (lock : Lock) × ((acquire_with_retry_and_ttl server w l resource ttl s).0 ≡ ok lock)
    unfolding acquire_with_retry_and_ttl
    acquire_with_retry_and_ttl-freed k s h free =
        acquire_loop-freed k (rounds_of l.retry_count) 0 none s h free
