-- ===== src/Redis/Lock/Releasing.antt =====
-- redis/lock.go: Release, Extend, Verify and WithLock on a lock that is held, lost or expired.
use txova_go_db.Prelude.{
  ℕ, ◌≡◌, ◌≢◌, refl, ap, ◌∙◌, ◌↔◌, ◌⊎◌, inl, inr, Bool, true, false, Option, none, some, ok,
  Bool-cases, Option-cases, arith, ◌/◌, ◌<◌,
}
use txova_go_db.Prelude.Int.{ℤ, pos}
use txova_go_db.Text.{Text, codes, text_eq}
use txova_go_db.Text.Equality.{text_eq_iff, text_eq_refl}
use txova_go_db.Redis.Errors.{Error}
use txova_go_db.Redis.Errors.Classify.{from_redis_error-nil}
use txova_go_db.Redis.Server.{delivered, Server, Laws}
use txova_go_db.Redis.Lock.Acquiring.{acquire_with_retry_and_ttl-IsWon}
use txova_go_db.Redis.Lock.{
  Lock, Locker, World, Ending, lock_not_held, milliseconds, owner_only, if_owner, release_script,
  extend_script, release_answer, extend_answer, verify_answer, release, extend, verify,
  with_acquired, acquire_with_retry_and_ttl, with_lock_and_ttl,
}

abbrev not_this_owner : Error
not_this_owner = lock_not_held (codes "lock is not held by this owner")

abbrev never_acquired : Error
never_acquired = lock_not_held (codes "lock was never acquired")

module _ (server : Server) (laws : Laws server) where
  open server use {Store, lookup, del, pexpire, nil_text}
  open laws use {del_held, del_other, pexpire_past}

  -- The outcomes of a Release whose call reaches the server.
  pub data Released (lock : Lock) (s : Store) (e : Option Error) (lock' : Lock) (s' : Store)
      : Type 0 where
    unacquired :
        lock.acquired ≡ false
        → e ≡ some never_acquired
        → lock' ≡ lock
        → s' ≡ s
        → Released lock s e lock' s'
    freed :
        lock.acquired ≡ true
        → lookup lock.key s ≡ some lock.owner
        → e ≡ none
        → lock' ≡ record lock { acquired = false }
        → lookup lock.key s' ≡ none
        → ((k : Text) → k ≢ lock.key → lookup k s' ≡ lookup k s)
        → Released lock s e lock' s'
    refused_release :
        lock.acquired ≡ true
        → lookup lock.key s ≢ some lock.owner
        → e ≡ some not_this_owner
        → lock' ≡ lock
        → s' ≡ s
        → Released lock s e lock' s'

  if_owner-other :
      (key owner : Text) (command : Store → ℕ × Store) (s : Store)
      → lookup key s ≢ some owner
      → if_owner server key owner command s ≡ (0, s)
  unfolding if_owner
  if_owner-other key owner command s h = elim (Option-cases (lookup key s)) [
    | inl missing ↦ rw (missing, owner_only) refl
    | inr (w, found) ↦ elim (Bool-cases (text_eq w owner)) [
      | inr e ↦ rw (found, owner_only, e) refl
      | inl e ↦ absurd (h (found ∙ ap some ((text_eq_iff w owner).0 e)))
    ]
  ]

  if_owner-same :
      (key owner : Text) (command : Store → ℕ × Store) (s : Store)
      → lookup key s ≡ some owner
      → if_owner server key owner command s ≡ command s
  unfolding if_owner
  if_owner-same key owner command s h = rw (h, owner_only, text_eq_refl owner) refl

  owned-cases : (o : Option Text) (owner : Text) → (o ≡ some owner) ⊎ (o ≢ some owner)
  owned-cases none owner = inr (λ e. cc)
  owned-cases (some v) owner = elim (Bool-cases (text_eq v owner)) [
    | inl e ↦ inl (ap some ((text_eq_iff v owner).0 e))
    | inr e ↦ inr (λ q. (let t = (text_eq_iff v owner).1 (cc) in cc))
  ]

  -- A Release that reaches the server frees the key exactly if the lock is marked as acquired and the
  -- server still has its owner; it then touches no other key. Else it changes nothing and returns
  -- LockNotHeld.
  pub release-Released :
      (lock : Lock) (s : Store)
      → Released lock s
          (release server delivered lock s).0.0
          (release server delivered lock s).0.1
          (release server delivered lock s).1
  unfolding release release_script release_answer
  release-Released lock s = elim (Bool-cases lock.acquired) [
    | inr a ↦ rw a (unacquired refl refl refl refl)
    | inl a ↦ elim (owned-cases (lookup lock.key s) lock.owner) [
      | inr h ↦
          rw (a, if_owner-other lock.key lock.owner (del lock.key) s h)
            (refused_release refl h refl refl refl)
      | inl h ↦
          let (one, gone) = del_held lock.key lock.owner s h in
          rw (a, if_owner-same lock.key lock.owner (del lock.key) s h, one)
            (freed refl h refl refl gone (λ k ne. del_other lock.key k s ne))
    ]
  ]

  -- If WithLockAndTTL acquires the lock, its function keeps the lock's owner in the store, and the
  -- Release reaches the server, then it ends as the function ends, with a panic, too, and the key is
  -- free.
  pub with_lock_and_ttl-frees :
      (w : World Store) (l : Locker) (resource : Text) (ttl : ℤ) (fn : Store → Ending × Store)
      (s s' : Store) (lock : Lock)
      → acquire_with_retry_and_ttl server w l resource ttl s ≡ (ok lock, s')
      → lookup lock.key (fn s').1 ≡ some lock.owner
      → ((with_lock_and_ttl server w delivered l resource ttl fn s).0 ≡ (fn s').0)
        × (lookup lock.key (with_lock_and_ttl server w delivered l resource ttl fn s).1 ≡ none)
  unfolding with_lock_and_ttl with_acquired release release_script
  with_lock_and_ttl-frees w l resource ttl fn s s' lock got h =
      let won =
        acquire_with_retry_and_ttl-IsWon server laws w l resource ttl s (ap (λ x. x.0) got) in
      let script = if_owner-same lock.key lock.owner (del lock.key) (fn s').1 h in
      let gone = (del_held lock.key lock.owner (fn s').1 h).1 in
      rw got (refl, rw (won.1, script) gone)

  short_ttl : (n : ℕ) → n < 1000000 → milliseconds (pos n) ≡ pos 0
  unfolding milliseconds
  short_ttl n h = let z : n / 1000000 ≡ 0 = omega arith in ap pos z

  -- Extend by less than a millisecond: the holder is told that the lock is extended, and still marks
  -- it as acquired, but the key is gone from the server.
  pub extend-short :
      (now : ℤ) (n : ℕ) (lock : Lock) (s : Store)
      → n < 1000000
      → lock.acquired ≡ true
      → lookup lock.key s ≡ some lock.owner
      → ((extend server now delivered (pos n) lock s).0.0 ≡ none)
        × ((extend server now delivered (pos n) lock s).0.1.acquired ≡ true)
        × (lookup lock.key (extend server now delivered (pos n) lock s).1 ≡ none)
  unfolding extend extend_script extend_answer
  extend-short now n lock s short a h =
      let (one, gone) = pexpire_past lock.key lock.owner (pos 0) s (omega arith) h in
      let script = if_owner-same lock.key lock.owner (pexpire lock.key (pos 0)) s h in
      rw (short_ttl n short, a, script, one) (refl, refl, gone)

  verified :
      (lock : Lock) (o : Option Text)
      → lock.acquired ≡ true
      → (b : Bool) × ((verify_answer nil_text lock (ok o)).0 ≡ ok b)
        × ((verify_answer nil_text lock (ok o)).1.acquired ≡ b)
        × ((b ≡ true) ↔ (o ≡ some lock.owner))
  unfolding verify_answer
  verified lock none a = rw (from_redis_error-nil nil_text) (false, refl, refl, (λ e. cc, λ e. cc))
  verified lock (some v) a = elim (Bool-cases (text_eq v lock.owner)) [
    | inl e ↦ rw e (true, refl, a, (λ _. ap some ((text_eq_iff v lock.owner).0 e), λ _. refl))
    | inr e ↦
        rw e (false, refl, refl, (λ q. cc, λ q. (let t = (text_eq_iff v lock.owner).1 (cc) in cc)))
  ]

  -- A Verify that reaches the server changes nothing there; for a lock that is marked as acquired it
  -- answers whether the server has the lock's owner, and marks the lock with the answer.
  pub verify-agrees :
      (lock : Lock) (s : Store)
      → lock.acquired ≡ true
      → ((verify server delivered lock s).1 ≡ s)
        × ((b : Bool) × ((verify server delivered lock s).0.0 ≡ ok b)
            × ((verify server delivered lock s).0.1.acquired ≡ b)
            × ((b ≡ true) ↔ (lookup lock.key s ≡ some lock.owner)))
  unfolding verify
  verify-agrees lock s a =
      rw a (refl, verified (record lock { acquired = true }) (lookup lock.key s) refl)
