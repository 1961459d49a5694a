-- ===== src/Redis/Cache/Batches.antt =====
-- redis/cache.go: DeleteByPattern, which deletes the keys of a scan in batches.
pub mod Clearing
use txova_go_db.Prelude.{
  ℕ, zero, suc, ◌+◌, ◌≡◌, ◌≢◌, refl, sym, ap, ◌∙◌, ◌⊎◌, inl, inr, Bool, true, false, ◌||◌, List, [],
  ◌∷◌, ◌++◌, Option, none, some, Result, ok, err, length, leb, Bool-cases, subst, append_assoc,
  append-nil, arith,
}
use txova_go_db.Text.{Text, text_eq}
use txova_go_db.Text.Equality.{text_eq_refl}
use txova_go_db.Text.Members.{mem, IsDistinct, total, mem-append, IsDistinct-append}
use txova_go_db.Redis.Errors.{Error, from_redis_error}
use txova_go_db.Redis.Server.{Fault, delivered, refused, lost, call}
use txova_go_db.Redis.Keyspace.{Keyspace, KeyLaws}
use txova_go_db.Redis.Cache.{Cache, prefix_key}

-- What the iterator over SCAN yields for a pattern, and the error that it ends with.
pub record Scan : Type 0 where
  pub yields : Text → List Text
  pub iter_error : Option Error

module _ (server : Keyspace) where
  open server use {Store}

  -- The count of deleted keys and the error.
  abbrev pub Answer : Type 0
  Answer = (ℕ × Option Error) × Store

  -- The end of a batch: its error, or what follows with the new count.
  abbrev pub after_batch : ℕ → Result Error ℕ → Store → (ℕ → Store → Answer) → Answer
  after_batch deleted (err e) s follow = ((deleted, some (from_redis_error e)), s)
  after_batch deleted (ok count) s follow = follow (deleted + count) s

  pub delete_batch : Fault → List Text → ℕ → Store → (ℕ → Store → Answer) → Answer
  delete_batch fault batch deleted s follow =
      let (reply, s') = call fault (server.del batch) s in after_batch deleted reply s' follow

  -- What follows the iteration.
  pub finish : Fault → Option Error → List Text → ℕ → Store → Answer
  unfolding delete_batch
  finish fault (some e) pending deleted s = ((deleted, some (from_redis_error e)), s)
  finish fault none [] deleted s = ((deleted, none), s)
  finish fault none (k ∷ pending) deleted s =
      delete_batch fault (k ∷ pending) deleted s (λ n s'. ((n, none), s'))

  -- Only one of the two is run.
  abbrev pub when_full : Bool → (Unit {0} → Answer) → (Unit {0} → Answer) → Answer
  when_full true send add = send tt
  when_full false send add = add tt

  -- The iteration, with the keys that are left, the batch so far, and the number of the next batch.
  pub delete_loop : (ℕ → Fault) → Option Error → ℕ → List Text → List Text → ℕ → Store → Answer
  unfolding finish
  delete_loop faults iter_error i [] pending deleted s =
      finish (faults i) iter_error pending deleted s
  delete_loop faults iter_error i (k ∷ ks) pending deleted s =
      let batch = pending ++ (k ∷ []) in
      when_full (leb 100 (length batch))
        (λ _.
          delete_batch (faults i) batch deleted s
            (λ n s'. delete_loop faults iter_error (i + 1) ks [] n s'))
        (λ _. delete_loop faults iter_error i ks batch deleted s)

  pub delete_by_pattern : Cache → (ℕ → Fault) → Scan → Text → Store → Answer
  unfolding delete_loop
  delete_by_pattern c faults scan pattern s =
      delete_loop faults scan.iter_error 0 (scan.yields (prefix_key c pattern)) [] 0 s
