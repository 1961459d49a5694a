-- ===== src/Redis/Lock/Tests.antt =====
-- The theorems on locks at a server with a list of keys.
use txova_go_db.Prelude.{
  zero, suc, ◌≡◌, refl, [], ◌∷◌, true, false, none, some, ok, err, inr, arith,
}
use txova_go_db.Prelude.Int.{pos, ◌+ℤ◌}
use txova_go_db.Text.{codes, text_eq}
use txova_go_db.Redis.Errors.{Error}
use txova_go_db.Redis.Server.{delivered, lost}
use txova_go_db.Redis.Server.Listed.{Entries, find, listed, listed-Laws}
use txova_go_db.Redis.Lock.{
  Lock, Locker, World, Ending, panicked, lock_key, lock_failed, acquire_answer, acquire_with_ttl,
  after_acquire, acquire_loop, acquire_with_retry_and_ttl, release, release_script, if_owner,
  owner_only, extend, with_lock_and_ttl,
}
use txova_go_db.Redis.Lock.Holding.{
  Steps, start, step, acquires, releases, acquire_with_ttl-excluded,
}
use txova_go_db.Redis.Lock.Acquiring.{IsWon, acquire_with_retry_and_ttl-IsWon}
use txova_go_db.Redis.Lock.Progress.{acquire_with_retry_and_ttl-freed}
use txova_go_db.Redis.Lock.Releasing.{
  Released, release-Released, with_lock_and_ttl-frees, extend-short,
}

abbrev locker : Locker
locker = record {
  key_prefix = codes "lock";
  default_ttl = pos 30000000000;
  retry_delay = pos 50000000;
  retry_count = pos 3;
}

abbrev ours : Lock
ours = record {
  key = codes "lock:ride";
  owner = codes "a";
  ttl = pos 5000000000;
  acquired = true;
  expires_at = pos 5000000000;
}

abbrev held : Entries
held = (codes "lock:ride", codes "a") ∷ []

-- Each attempt has an owner of its own; nothing goes wrong, and nobody does anything meanwhile.
abbrev calm : World Entries
calm = record {
  owner = λ i. elim i [ zero ↦ codes "a" | suc _ ↦ codes "b" ];
  now = λ i. pos 0;
  fault = λ i. delivered;
  is_done = λ i. false;
  ctx_error = Error.other (codes "context canceled");
  sleep = λ i s. s;
}

held-found : find (lock_key locker (codes "ride")) held ≡ some (codes "a")
unfolding lock_key text_eq
held-found = refl

held-ours : find ours.key held ≡ some ours.owner
unfolding text_eq
held-ours = refl

-- Another process tries to acquire the lock, and its reply is lost; then a lock of another owner is
-- released.
abbrev theirs : Lock
theirs = record ours { owner = codes "b" }

others : Steps listed listed-Laws (lock_key locker (codes "ride")) (codes "a") held held
unfolding lock_key acquire_with_ttl release release_script if_owner owner_only text_eq
others =
    step {s' = held}
      (acquires locker (codes "b") (pos 0) (lost (Error.other (codes "EOF"))) (codes "ride")
        (pos 1000000000) refl)
      (step (releases delivered theirs (inr (λ e. ground arith)) refl) (start held))

acquire_with_ttl-excluded_example :
    (find (lock_key locker (codes "ride")) held ≡ some (codes "a"))
    × (acquire_with_ttl listed locker
          (codes "c")
          (pos 0)
          delivered
          (codes "ride")
          (pos 9000000)
          held
        ≡ (err (lock_failed (codes "lock is already held by another owner")), held))
acquire_with_ttl-excluded_example =
    acquire_with_ttl-excluded listed listed-Laws locker (codes "a") (codes "ride") (codes "c")
      (pos 0) (pos 9000000) others held-found

free_run :
    acquire_with_retry_and_ttl listed calm locker (codes "ride") (pos 5000000000) []
    ≡ (ok ours, held)
unfolding acquire_with_retry_and_ttl acquire_loop after_acquire acquire_with_ttl acquire_answer
    lock_key ◌+ℤ◌
free_run = refl

acquire_with_retry_and_ttl-IsWon_example :
    IsWon listed listed-Laws calm locker
      (codes "ride")
      0
      3
      ours
      (acquire_with_retry_and_ttl listed calm locker (codes "ride") (pos 5000000000) []).1
acquire_with_retry_and_ttl-IsWon_example =
    acquire_with_retry_and_ttl-IsWon listed listed-Laws calm locker (codes "ride") (pos 5000000000)
      [] (λ i. (free_run i).0)

-- Others store a key of theirs during each sleep.
abbrev busy : World Entries
busy = record calm { sleep = λ i s. (codes "other", codes "b") ∷ s }

release-Released_example :
    Released listed listed-Laws ours held
      (release listed delivered ours held).0.0
      (release listed delivered ours held).0.1
      (release listed delivered ours held).1
release-Released_example = release-Released listed listed-Laws ours held

-- The function panics.
abbrev panics : Entries → Ending × Entries
panics s = (panicked, s)

panics-keeps : find ours.key (panics held).1 ≡ some ours.owner
unfolding text_eq
panics-keeps = refl

with_lock_and_ttl-frees_example :
    ((with_lock_and_ttl listed calm delivered locker (codes "ride") (pos 5000000000) panics []).0
      ≡ panicked)
    × (find ours.key
          (with_lock_and_ttl listed calm delivered locker
            (codes "ride")
            (pos 5000000000)
            panics
            []).1
        ≡ none)
with_lock_and_ttl-frees_example =
    with_lock_and_ttl-frees listed listed-Laws calm locker (codes "ride") (pos 5000000000) panics []
      held ours free_run panics-keeps

extend-short_example :
    ((extend listed (pos 0) delivered (pos 500000) ours held).0.0 ≡ none)
    × ((extend listed (pos 0) delivered (pos 500000) ours held).0.1.acquired ≡ true)
    × (find ours.key (extend listed (pos 0) delivered (pos 500000) ours held).1 ≡ none)
extend-short_example =
    extend-short listed listed-Laws (pos 0) 500000 ours held (omega arith) refl held-ours

-- The other owner releases the lock during the second sleep.
abbrev releasing : World Entries
releasing = record {
  owner = λ i. codes "b";
  now = λ i. pos 0;
  fault = λ i. delivered;
  is_done = λ i. false;
  ctx_error = Error.other (codes "context canceled");
  sleep = λ i s. elim i [ zero ↦ s | suc _ ↦ [] ];
}

acquire_with_retry_and_ttl-freed_example :
    (lock : Lock) × ((acquire_with_retry_and_ttl listed releasing locker
        (codes "ride")
        (pos 5000000000)
        held).0
      ≡ ok lock)
acquire_with_retry_and_ttl-freed_example =
    acquire_with_retry_and_ttl-freed listed listed-Laws releasing locker (codes "ride")
      (pos 5000000000) (omega arith) (λ i. refl) (λ i. refl) 2 held (omega arith) refl
