-- ===== src/Redis/Lock.antt =====
-- redis/lock.go: `Locker` and `Lock` over the server's commands.
pub mod Holding
pub mod Acquiring
pub mod Releasing
pub mod Trying
pub mod Progress
mod Defaults
mod Tests
use txova_go_db.Prelude.{
  ℕ, zero, suc, ◌+◌, ◌/◌, ◌++◌, Bool, true, false, Option, none, some, Result, ok, err, ◌==◌,
  if◌then◌else◌, not, [], ◌∷◌,
}
use txova_go_db.Prelude.Int64.{quotient}
use txova_go_db.Prelude.Int.{ℤ, pos, negsuc, ◌+ℤ◌, ◌-ℤ◌, ltb_ℤ}
use txova_go_db.Text.{Text, codes, text_eq}
use txova_go_db.Text.Decimal.{decimal_ℤ}
use txova_go_db.Redis.Errors.{
  Error, new_error, wrap, from_redis_error, is_code, code_lock_failed, code_lock_not_held,
  code_timeout, code_not_found,
}
use Error.{nil_reply}
use txova_go_db.Redis.Server.{Fault, call, Server}

-- Times are nanoseconds since the epoch, durations nanoseconds.
pub record Lock : Type 0 where
  pub key : Text
  pub owner : Text
  pub ttl : ℤ
  pub acquired : Bool
  pub expires_at : ℤ

pub record Locker : Type 0 where
  pub key_prefix : Text
  pub default_ttl : ℤ
  pub retry_delay : ℤ
  pub retry_count : ℤ

-- `NewLocker` without options.
unfoldable pub new_locker : Locker
new_locker = record {
  key_prefix = codes "lock";
  default_ttl = pos 30000000000;
  retry_delay = pos 50000000;
  retry_count = pos 100;
}

pub lock_key : Locker → Text → Text
lock_key l resource = l.key_prefix ++ (codes ":" ++ resource)

-- `LockFailed` and `LockNotHeld`
pub lock_failed : Text → Error
lock_failed message = new_error code_lock_failed message

abbrev pub lock_not_held : Text → Error
lock_not_held message = new_error code_lock_not_held message

-- `ttl.Milliseconds()`, which divides towards zero.
pub milliseconds : ℤ → ℤ
unfolding quotient
milliseconds ttl = quotient ttl 1000000

-- `for i := range count` makes this many rounds.
abbrev pub rounds_of : ℤ → ℕ
rounds_of (pos n) = n
rounds_of (negsuc n) = 0

-- The answer of AcquireWithTTL to the reply of SETNX.
pub acquire_answer : Lock → Result Error Bool → Result Error Lock
acquire_answer lock (err e) = err (from_redis_error e)
acquire_answer lock (ok false) = err (lock_failed (codes "lock is already held by another owner"))
acquire_answer lock (ok true) = ok lock

-- The answer of TryAcquireWithTTL: no lock and no error if the lock is held.
pub try_answer : Result Error Lock → Result Error (Option Lock)
try_answer (ok lock) = ok (some lock)
try_answer (err e) = if is_code e code_lock_failed then ok none else err e

-- The error and the lock after Release, by the reply of the script.
pub release_answer : Lock → Result Error ℕ → Option Error × Lock
release_answer lock (err e) = (some (from_redis_error e), lock)
release_answer lock (ok n) =
    if n == 0
    then (some (lock_not_held (codes "lock is not held by this owner")), lock)
    else (none, record lock { acquired = false })

-- The error and the lock after Extend.
pub extend_answer : ℤ → ℤ → Lock → Result Error ℕ → Option Error × Lock
extend_answer now ttl lock (err e) = (some (from_redis_error e), lock)
extend_answer now ttl lock (ok n) =
    if n == 0
    then (
      some (lock_not_held (codes "lock is not held by this owner")),
      record lock { acquired = false },
    )
    else (none, record lock { ttl = ttl; expires_at = now +ℤ ttl })

-- The answer and the lock after Verify; `redis.Nil` stands for a missing key.
pub verify_answer : Text → Lock → Result Error (Option Text) → Result Error Bool × Lock
verify_answer nil_text lock (err e) =
    if is_code (from_redis_error e) code_not_found
    then (ok false, record lock { acquired = false })
    else (err (from_redis_error e), lock)
verify_answer nil_text lock (ok none) =
    if is_code (from_redis_error (nil_reply nil_text)) code_not_found
    then (ok false, record lock { acquired = false })
    else (err (from_redis_error (nil_reply nil_text)), lock)
verify_answer nil_text lock (ok (some owner)) =
    if text_eq owner lock.owner
    then (ok true, lock)
    else (ok false, record lock { acquired = false })

-- How the function of WithLock ends.
pub data Ending : Type 0 where
  returned : Option Error → Ending
  panicked : Ending

-- What differs between the attempts of AcquireWithRetry: the random owner, the clock, the
-- connection, the context, and what others do to the store during the sleep.
pub record World (S : Type 0) : Type 0 where
  pub owner : ℕ → Text
  pub now : ℕ → ℤ
  pub fault : ℕ → Fault
  pub is_done : ℕ → Bool
  pub ctx_error : Error
  pub sleep : ℕ → S → S

-- `if value == owner then … else return 0 end`; a missing key is not equal to any owner.
pub owner_only : {S : Type 0} → Option Text → Text → (S → ℕ × S) → S → ℕ × S
owner_only none owner command s = (0, s)
owner_only (some v) owner command s = if text_eq v owner then command s else (0, s)

module _ (server : Server) where
  open server use {Store, lookup, set_nx, del, pexpire, nil_text}

  pub acquire_with_ttl : Locker → Text → ℤ → Fault → Text → ℤ → Store → Result Error Lock × Store
  unfolding acquire_answer lock_key
  acquire_with_ttl l owner now fault resource ttl s =
      let key = lock_key l resource in
      let (reply, s') = call fault (set_nx key owner ttl) s in
      (
        acquire_answer
            (record {
              key = key;
              owner = owner;
              ttl = ttl;
              acquired = true;
              expires_at = now +ℤ ttl;
            })
            reply,
        s',
      )

  pub try_acquire_with_ttl :
      Locker → Text → ℤ → Fault → Text → ℤ → Store → Result Error (Option Lock) × Store
  try_acquire_with_ttl l owner now fault resource ttl s =
      let (answer, s') = acquire_with_ttl l owner now fault resource ttl s in
      (try_answer answer, s')

  -- The end of a round: only contention leads to the next one, unless the context is done.
  pub after_acquire :
      Bool
      → Error
      → Result Error Lock
      → Store
      → (Error → Result Error Lock × Store)
      → Result Error Lock × Store
  after_acquire is_done ctx_error (ok lock) s again = (ok lock, s)
  after_acquire is_done ctx_error (err e) s again =
      if not (is_code e code_lock_failed)
      then (err e, s)
      else if is_done
      then (err (wrap code_timeout (codes "lock acquisition cancelled") (some ctx_error)), s)
      else again e

  abbrev pub attempts_error : ℤ → Option Error → Error
  attempts_error count last_err =
      wrap code_lock_failed
        (codes "failed to acquire lock after " ++ (decimal_ℤ count ++ codes " attempts")) last_err

  -- The loop of AcquireWithRetryAndTTL, with the rounds that are left.
  pub acquire_loop :
      World Store → Locker → Text → ℤ → ℕ → ℕ → Option Error → Store → Result Error Lock × Store
  acquire_loop w l resource ttl zero i last_err s = (err (attempts_error l.retry_count last_err), s)
  acquire_loop w l resource ttl (suc rounds) i last_err s =
      let (answer, s') = acquire_with_ttl l (w.owner i) (w.now i) (w.fault i) resource ttl s in
      after_acquire (w.is_done i) w.ctx_error answer s'
        (λ e. acquire_loop w l resource ttl rounds (i + 1) (some e) (w.sleep i s'))

  pub acquire_with_retry_and_ttl :
      World Store → Locker → Text → ℤ → Store → Result Error Lock × Store
  unfolding acquire_loop
  acquire_with_retry_and_ttl w l resource ttl s =
      acquire_loop w l resource ttl (rounds_of l.retry_count) 0 none s

  pub if_owner : Text → Text → (Store → ℕ × Store) → Store → ℕ × Store
  unfolding owner_only
  if_owner key owner command s = owner_only (lookup key s) owner command s

  pub release_script : Text → Text → Store → ℕ × Store
  release_script key owner = if_owner key owner (del key)

  pub extend_script : Text → Text → ℤ → Store → ℕ × Store
  extend_script key owner ttl_ms = if_owner key owner (pexpire key ttl_ms)

  pub release : Fault → Lock → Store → (Option Error × Lock) × Store
  release fault lock s =
      let (reply, s') = call fault (release_script lock.key lock.owner) s in
      if not lock.acquired
      then ((some (lock_not_held (codes "lock was never acquired")), lock), s)
      else (release_answer lock reply, s')

  pub extend : ℤ → Fault → ℤ → Lock → Store → (Option Error × Lock) × Store
  extend now fault ttl lock s =
      let (reply, s') = call fault (extend_script lock.key lock.owner (milliseconds ttl)) s in
      if not lock.acquired
      then ((some (lock_not_held (codes "lock was never acquired")), lock), s)
      else (extend_answer now ttl lock reply, s')

  pub verify : Fault → Lock → Store → (Result Error Bool × Lock) × Store
  verify fault lock s =
      let (reply, s') = call fault (λ st. (lookup lock.key st, st)) s in
      if not lock.acquired then ((ok false, lock), s) else (verify_answer nil_text lock reply, s')

  -- WithLockAndTTL behind the acquisition; the deferred Release runs after a panic, too, and its
  -- error is logged and dropped.
  pub with_acquired : Fault → (Store → Ending × Store) → Result Error Lock → Store → Ending × Store
  with_acquired fault fn (err e) s = (returned (some e), s)
  with_acquired fault fn (ok lock) s =
      let (ending, s') = fn s in (ending, (release fault lock s').1)

  pub with_lock_and_ttl :
      World Store → Fault → Locker → Text → ℤ → (Store → Ending × Store) → Store → Ending × Store
  with_lock_and_ttl w fault l resource ttl fn s =
      let (answer, s') = acquire_with_retry_and_ttl w l resource ttl s in
      with_acquired fault fn answer s'
