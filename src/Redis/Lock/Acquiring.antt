-- ===== src/Redis/Lock/Acquiring.antt =====
-- redis/lock.go: what AcquireWithRetryAndTTL returns.
use txova_go_db.Prelude.{
  ℕ, zero, suc, ◌+◌, ◌≤◌, ◌<◌, ◌≡◌, refl, sym, ap, ◌∙◌, ◌⊎◌, inl, inr, Bool, true, false, Option,
  none, some, Result, ok, err, Bool-cases, subst, arith,
}
use txova_go_db.Prelude.Int.{ℤ}
use txova_go_db.Text.{Text, codes, text_eq}
use txova_go_db.Redis.Errors.{Error, is_code, as_error, new_error, code_lock_failed}
use txova_go_db.Redis.Server.{Fault, delivered, refused, lost, call, Server, Laws}
use txova_go_db.Redis.Lock.{
  Lock, Locker, World, lock_key, lock_failed, rounds_of, acquire_answer, acquire_with_ttl,
  after_acquire, acquire_loop, acquire_with_retry_and_ttl,
}

abbrev pub contended : Error
contended = lock_failed (codes "lock is already held by another owner")

pub contended-lock_failed : is_code contended code_lock_failed ≡ true
unfolding lock_failed new_error is_code as_error text_eq
contended-lock_failed = refl

-- The store after some of the sleeps, from the one behind attempt `i` on.
abbrev pub slept : {S : Type 0} → World S → ℕ → ℕ → S → S
slept w i zero s = s
slept w i (suc k) s = slept w (i + 1) k (w.sleep i s)

-- A lock comes from a reply, and only from `true`.
acquire_answer-ok :
    (lock : Lock) (reply : Result Error Bool) {got : Lock}
    → acquire_answer lock reply ≡ ok got
    → (lock ≡ got) × (reply ≡ ok true)
unfolding acquire_answer
acquire_answer-ok lock (err e) h = cc
acquire_answer-ok lock (ok false) h = cc
acquire_answer-ok lock (ok true) h = (cc, refl)

module _ (server : Server) where
  open server use {Store, lookup, set_nx}

  call-ok :
      {A : Type 0} (fault : Fault) (command : Store → A × Store) (s : Store) {a : A}
      → (call fault command s).0 ≡ ok a
      → ((command s).0 ≡ a) × ((call fault command s).1 ≡ (command s).1)
  call-ok delivered command s h = (cc, refl)
  call-ok (refused e) command s h = cc
  call-ok (lost e) command s h = cc

  -- The end of a round with a lock: this attempt's, or that of the next rounds.
  after_acquire-ok :
      (is_done : Bool) (ctx_error : Error) (answer : Result Error Lock) (s : Store)
      (again : Error → Result Error Lock × Store) {lock : Lock}
      → (after_acquire server is_done ctx_error answer s again).0 ≡ ok lock
      → ((answer ≡ ok lock) × ((after_acquire server is_done ctx_error answer s again).1 ≡ s))
        ⊎ ((e : Error) × (after_acquire server is_done ctx_error answer s again ≡ again e))
  unfolding after_acquire
  after_acquire-ok is_done ctx_error (ok lock') s again h = inl (h, refl)
  after_acquire-ok is_done ctx_error (err e) s again h =
      elim (Bool-cases (is_code e code_lock_failed)) [
        | inr c ↦ let stopped = rw c at h in cc
        | inl c ↦ elim (Bool-cases is_done) [
          | inl d ↦ let stopped = rw (c, d) at h in cc
          | inr d ↦ inr (e, rw (c, d) refl)
        ]
      ]

  module _ (laws : Laws server) where
    open laws use {set_nx_true}

    acquire_with_ttl-ok :
        (l : Locker) (owner : Text) (now : ℤ) (fault : Fault) (resource : Text) (ttl : ℤ)
        (s : Store) {lock : Lock}
        → (acquire_with_ttl server l owner now fault resource ttl s).0 ≡ ok lock
        → (lock.key ≡ lock_key l resource)
          × (lock.owner ≡ owner)
          × (lock.acquired ≡ true)
          × (lookup lock.key (acquire_with_ttl server l owner now fault resource ttl s).1
              ≡ some lock.owner)
    unfolding acquire_with_ttl
    acquire_with_ttl-ok l owner now fault resource ttl s {lock} h =
        let key = lock_key l resource in
        let (e, reply) = acquire_answer-ok _ _ h in
        let (won, after) = call-ok fault (set_nx key owner ttl) s reply in
        let holds = set_nx_true key owner ttl s won in
        (
          sym (ap (λ (x : Lock). x.key) e),
          sym (ap (λ (x : Lock). x.owner) e),
          sym (ap (λ (x : Lock). x.acquired) e),
          subst
              (λ (x : Lock).
                lookup x.key (acquire_with_ttl server l owner now fault resource ttl s).1
                ≡ some x.owner)
              e (ap (lookup key) after ∙ holds),
        )

    -- The lock is one of the resource, held with the owner of one of the attempts from `i` on.
    abbrev pub IsWon : World Store → Locker → Text → ℕ → ℕ → Lock → Store → Type 0
    IsWon w l resource i n lock s =
        (lock.key ≡ lock_key l resource)
        × (lock.acquired ≡ true)
        × (lookup lock.key s ≡ some lock.owner)
        × ((j : ℕ) × (i ≤ j) × (j < i + n) × (lock.owner ≡ w.owner j))

    module _ (w : World Store) (l : Locker) (resource : Text) (ttl : ℤ) where
      acquire_loop-IsWon :
          (rounds i : ℕ) (last : Option Error) (s : Store) {lock : Lock}
          → (acquire_loop server w l resource ttl rounds i last s).0 ≡ ok lock
          → IsWon w l resource i rounds lock
              (acquire_loop server w l resource ttl rounds i last s).1
      unfolding acquire_loop
      acquire_loop-IsWon zero i last s h = cc
      acquire_loop-IsWon (suc n) i last s {lock} h =
          let r = acquire_with_ttl server l (w.owner i) (w.now i) (w.fault i) resource ttl s in
          let again : Error → Result Error Lock × Store =
            λ e. acquire_loop server w l resource ttl n (i + 1) (some e) (w.sleep i r.1) in
          elim (after_acquire-ok (w.is_done i) w.ctx_error r.0 r.1 again h) [
            | inl (e, after) ↦
                let (key, owner, acquired, holds) =
                  acquire_with_ttl-ok l (w.owner i) (w.now i) (w.fault i) resource ttl s e in
                (
                  key,
                  acquired,
                  ap (lookup lock.key) after ∙ holds,
                  (i, omega arith, omega arith, owner),
                )
            | inr (e, after) ↦
                let next =
                  acquire_loop-IsWon n (i + 1) (some e) (w.sleep i r.1)
                    (sym (ap (λ x. x.0) after) ∙ h) in
                let (key, acquired, holds, (j, lo, hi, owner)) = next in
                (
                  key,
                  acquired,
                  ap (λ x. lookup lock.key x.1) after ∙ holds,
                  (j, omega arith, omega arith, owner),
                )
          ]

      -- If AcquireWithRetryAndTTL returns a lock then, whatever the connection and the others do,
      -- the lock is one of the resource, marked as acquired, and the server has just stored its
      -- owner, which was generated for one of the at most RetryCount attempts.
      pub acquire_with_retry_and_ttl-IsWon :
          (s : Store) {lock : Lock}
          → (acquire_with_retry_and_ttl server w l resource ttl s).0 ≡ ok lock
          → IsWon w l resource 0
              (rounds_of l.retry_count)
              lock
              (acquire_with_retry_and_ttl server w l resource ttl s).1
      unfolding acquire_with_retry_and_ttl
      acquire_with_retry_and_ttl-IsWon s h = acquire_loop-IsWon (rounds_of l.retry_count) 0 none s h

      module _ (v : Text) (delivers : (i : ℕ) → w.fault i ≡ delivered)
          (waits : (i : ℕ) → w.is_done i ≡ false)
          (keeps : (i : ℕ) (s : Store)
            → lookup (lock_key l resource) s ≡ some v
            → lookup (lock_key l resource) (w.sleep i s) ≡ some v) where
        -- The error that the loop keeps when it is left.
        abbrev kept : ℕ → Option Error → Option Error
        kept zero last = last
        kept (suc n) last = some contended
