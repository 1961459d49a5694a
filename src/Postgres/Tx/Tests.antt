-- ===== src/Postgres/Tx/Tests.antt =====
-- The theorems on the transaction manager in concrete environments.
use txova_go_db.Prelude.{
  ℕ, zero, suc, ◌+◌, ◌-◌, ◌*◌, ◌/◌, ◌≤◌, ◌≡◌, refl, [], ◌∷◌, none, some, true, false, ok, min,
  arith,
}
use txova_go_db.Prelude.Int.{pos}
use txova_go_db.Text.{codes, text_eq}
use txova_go_db.Postgres.Errors.{
  Error, new, wrap, code_serialization, code_connection, is_retryable, as_error,
}
use txova_go_db.Postgres.Tx.{
  begin, run, commit, returned, Environment, finished, execute_with_retry, rounds_of,
  exhausted_error,
}
use txova_go_db.Postgres.Tx.Runs.{
  IsSettled, start, EndsCommitted, count_begins, count_commits, execute_with_retry-IsSettled,
  execute_with_retry-EndsCommitted,
}
use txova_go_db.Postgres.Tx.Endings.{execute_with_retry-exhausted, execute_with_retry-commit_fails}
use txova_go_db.Postgres.Tx.Delay.{calculate_retry_delay}
use txova_go_db.Postgres.Tx.Delay.Bounds.{IsRandom, multiplier, calculate_retry_delay_bounds}

abbrev conflict : Error
conflict = new code_serialization (codes "could not serialize")

-- The first attempt's function fails with a serialization error; the others return nil.
abbrev second_succeeds : Environment
second_succeeds = record {
  driver_begin = λ h. ok (count_begins h);
  driver_commit = λ h tx. none;
  driver_rollback = λ h tx. none;
  fn = λ h tx. elim tx [ zero ↦ returned (some conflict) | suc _ ↦ returned none ];
  is_done = λ h. false;
}

-- Each attempt has a transaction of its own, and the function always fails.
abbrev always_conflicts : Environment
always_conflicts = record {
  driver_begin = λ h. ok (count_begins h);
  driver_commit = λ h tx. none;
  driver_rollback = λ h tx. none;
  fn = λ h tx. returned (some conflict);
  is_done = λ h. false;
}

-- The commit fails.
abbrev conflicts_at_commit : Environment
conflicts_at_commit = record {
  driver_begin = λ h. ok 1;
  driver_commit = λ h tx. some conflict;
  driver_rollback = λ h tx. none;
  fn = λ h tx. returned none;
  is_done = λ h. false;
}

conflict-is_retryable : is_retryable conflict ≡ true
unfolding is_retryable as_error new text_eq
conflict-is_retryable = refl

execute_with_retry-IsSettled_example :
    IsSettled (execute_with_retry second_succeeds (pos 2) []).1
    × (count_begins (execute_with_retry second_succeeds (pos 2) []).1
        ≤ count_begins [] + rounds_of (pos 2))
    × (count_commits (execute_with_retry second_succeeds (pos 2) []).1 ≤ count_commits [] + 1)
execute_with_retry-IsSettled_example = execute_with_retry-IsSettled second_succeeds (pos 2) [] start

second_succeeds_finished : (execute_with_retry second_succeeds (pos 2) []).0 ≡ finished none
unfolding execute_with_retry is_retryable as_error new text_eq
second_succeeds_finished = refl

execute_with_retry-EndsCommitted_example :
    EndsCommitted second_succeeds (execute_with_retry second_succeeds (pos 2) []).1
execute_with_retry-EndsCommitted_example =
    execute_with_retry-EndsCommitted second_succeeds (pos 2) [] second_succeeds_finished

execute_with_retry-exhausted_example :
    ((execute_with_retry always_conflicts (pos 2) []).0
      ≡ finished (some (exhausted_error (some conflict))))
    × (count_begins (execute_with_retry always_conflicts (pos 2) []).1 ≡ 3)
execute_with_retry-exhausted_example =
    execute_with_retry-exhausted always_conflicts conflict (λ h. (count_begins h, refl))
      (λ h tx. refl) (λ h. refl) conflict-is_retryable 2 []

execute_with_retry-commit_fails_example : execute_with_retry conflicts_at_commit (pos 3) [] ≡ (
  finished (some (wrap code_connection (codes "failed to commit transaction") (some conflict))),
  commit 1 ∷ run 1 ∷ begin ∷ [],
)
execute_with_retry-commit_fails_example =
    execute_with_retry-commit_fails conflicts_at_commit 3 1 conflict [] refl refl refl

zero_IsRandom : IsRandom (λ n. pos 0)
zero_IsRandom n h = (omega arith, h)

calculate_retry_delay_bounds_example :
    (j : ℕ) × (j ≤ min 1000000000 (10000000 * multiplier (pos 3)) / 2)
    × (calculate_retry_delay (λ n. pos 0) (pos 10000000) (pos 1000000000) (pos 3)
        ≡ pos (
            min 1000000000 (10000000 * multiplier (pos 3))
            - min 1000000000 (10000000 * multiplier (pos 3)) / 4
            + j))
calculate_retry_delay_bounds_example =
    calculate_retry_delay_bounds (λ n. pos 0) 10000000 1000000000 (pos 3) zero_IsRandom
      (omega arith) (omega arith)
