-- ===== src/Redis/Lock/Defaults.antt =====
-- redis/lock.go: the options of `Locker`, the operations with its default time to live, and what a
-- `Lock` tells of itself.
use txova_go_db.Prelude.{Bool, List, [], ◌∷◌, Option, Result, ok, err}
use txova_go_db.Prelude.Int.{ℤ, ltb_ℤ}
use txova_go_db.Text.{Text}
use txova_go_db.Redis.Errors.{Error, from_redis_error}
use txova_go_db.Redis.Server.{Fault, call, Server}
use txova_go_db.Redis.Lock.{
  Lock, Locker, World, Ending, new_locker, acquire_with_ttl, acquire_with_retry_and_ttl,
  try_acquire_with_ttl, with_lock_and_ttl,
}

-- `LockerOption`; the logger is left out.
pub data LockerOption : Type 0 where
  with_lock_key_prefix : Text → LockerOption
  with_default_lock_ttl with_lock_retry_delay with_lock_retry_count : ℤ → LockerOption

abbrev apply_option : LockerOption → Locker → Locker
apply_option (with_lock_key_prefix prefix) l = record l { key_prefix = prefix }
apply_option (with_default_lock_ttl ttl) l = record l { default_ttl = ttl }
apply_option (with_lock_retry_delay delay) l = record l { retry_delay = delay }
apply_option (with_lock_retry_count count) l = record l { retry_count = count }

abbrev apply_options : List LockerOption → Locker → Locker
apply_options [] l = l
apply_options (opt ∷ opts) l = apply_options opts (apply_option opt l)

-- `NewLocker`
unfoldable configured_locker : List LockerOption → Locker
configured_locker opts = apply_options opts new_locker

module _ (server : Server) where
  open server use {Store, pttl}

  unfoldable acquire : Locker → Text → ℤ → Fault → Text → Store → Result Error Lock × Store
  acquire l owner now fault resource s =
      acquire_with_ttl server l owner now fault resource l.default_ttl s

  unfoldable acquire_with_retry : World Store → Locker → Text → Store → Result Error Lock × Store
  acquire_with_retry w l resource s = acquire_with_retry_and_ttl server w l resource l.default_ttl s

  unfoldable try_acquire :
      Locker → Text → ℤ → Fault → Text → Store → Result Error (Option Lock) × Store
  try_acquire l owner now fault resource s =
      try_acquire_with_ttl server l owner now fault resource l.default_ttl s

  unfoldable with_lock :
      World Store → Fault → Locker → Text → (Store → Ending × Store) → Store → Ending × Store
  with_lock w fault l resource fn s = with_lock_and_ttl server w fault l resource l.default_ttl fn s

  abbrev ttl_answer : Result Error ℤ → Result Error ℤ
  ttl_answer (ok ttl) = ok ttl
  ttl_answer (err e) = err (from_redis_error e)

  -- `TTL`
  unfoldable lock_ttl : Fault → Lock → Store → Result Error ℤ
  lock_ttl fault lock s = ttl_answer (call fault (λ x. (pttl lock.key x, x)) s).0

-- `IsExpired`, by the local clock.
abbrev is_expired : ℤ → Lock → Bool
is_expired now lock = ltb_ℤ lock.expires_at now
