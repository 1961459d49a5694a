-- ===== src/Redis/Lock/Trying.antt =====
-- redis/lock.go: what TryAcquireWithTTL answers.
use txova_go_db.Prelude.{◌≡◌, refl, ◌↔◌, inl, inr, none, some, ok, err, Option-cases}
use txova_go_db.Prelude.Int.{ℤ, pos, ◌≤ℤ◌}
use txova_go_db.Text.{Text}
use txova_go_db.Redis.Errors.{Error, from_redis_error}
use txova_go_db.Redis.Errors.Classify.{from_redis_error-lock_failed}
use txova_go_db.Redis.Server.{Fault, delivered, refused, lost, Server, Laws}
use txova_go_db.Redis.Lock.{
  Locker, lock_key, acquire_answer, acquire_with_ttl, try_answer, try_acquire_with_ttl,
}
use txova_go_db.Redis.Lock.Acquiring.{contended, contended-lock_failed}

-- An error of the connection is handed on.
try_answer-failed : (e : Error) → try_answer (err (from_redis_error e)) ≡ err (from_redis_error e)
unfolding try_answer
try_answer-failed e = rw (from_redis_error-lock_failed e) refl

try_answer-contended : try_answer (err contended) ≡ ok none
unfolding try_answer
try_answer-contended = rw contended-lock_failed refl

module _ (server : Server) (laws : Laws server) where
  open server use {Store, lookup, set_nx}
  open laws use {set_nx_held, set_nx_free}

  -- With a time to live that is not negative, TryAcquireWithTTL returns neither a lock nor an error
  -- exactly if its call reaches the server and the key is held.
  pub try_acquire_with_ttl-none :
      (l : Locker) (owner : Text) (now : ℤ) (fault : Fault) (resource : Text) (ttl : ℤ) (s : Store)
      → pos 0 ≤ℤ ttl
      → ((try_acquire_with_ttl server l owner now fault resource ttl s).0 ≡ ok none)
        ↔ ((fault ≡ delivered) × ((v : Text) × (lookup (lock_key l resource) s ≡ some v)))
  unfolding try_acquire_with_ttl acquire_with_ttl acquire_answer
  try_acquire_with_ttl-none l owner now (refused e) resource ttl s t =
      let failed = try_answer-failed e in (λ h. cc, λ (d, held). cc)
  try_acquire_with_ttl-none l owner now (lost e) resource ttl s t =
      let failed = try_answer-failed e in (λ h. cc, λ (d, held). cc)
  try_acquire_with_ttl-none l owner now delivered resource ttl s t =
      let key = lock_key l resource in
      elim (Option-cases (lookup key s)) [
        | inl missing ↦
            rw (set_nx_free key owner ttl s t missing)
              (λ h. unfold try_answer in cc, λ (d, (v, held)). cc)
        | inr (v, held) ↦
            rw (set_nx_held key owner v ttl s held)
              (λ h. (refl, (v, held)), λ _. try_answer-contended)
      ]
