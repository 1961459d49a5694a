-- ===== src/Postgres/Tx/Retry.antt =====
-- The loop of `executeWithRetry` as a relation between the rounds left and what happens, and what
-- holds of every run.
use txova_go_db.Prelude.{
  ℕ, zero, suc, ◌+◌, ◌≡◌, true, false, Option, none, some, Bool-cases, inl, inr,
}
use txova_go_db.Postgres.Errors.{Error, is_retryable}
use txova_go_db.Postgres.Tx.{
  History, Environment, Outcome, finished, panicking, execute_tx, wait_before, after_attempt,
  cancelled_error, exhausted_error, retry_loop,
}
use txova_go_db.Postgres.Tx.Attempt.{Attempt, execute_tx-Attempt}

-- Outcomes after which there is no other round: all but a retryable error.
abbrev pub IsFinal : Outcome → Type 0
IsFinal panicking = Unit
IsFinal (finished none) = Unit
IsFinal (finished (some e)) = is_retryable e ≡ false

module _ (env : Environment) where
  -- From the rounds left, the index of the attempt, the last error and the calls so far to the
  -- outcome and the calls at the end.
  pub data Retries : ℕ → ℕ → Option Error → History → Outcome → History → Type 0 where
    exhausted :
        (attempt : ℕ) (last : Option Error) (h : History)
        → Retries zero attempt last h (finished (some (exhausted_error last))) h
    cancelled :
        (rounds attempt : ℕ) (last : Option Error) (h : History)
        → (wait_before env attempt h).0 ≡ true
        → Retries
            (suc rounds)
            attempt
            last
            h
            (finished (some cancelled_error))
            (wait_before env attempt h).1
    stopped :
        (rounds attempt : ℕ) (last : Option Error) (h h' : History) (o : Outcome)
        → (wait_before env attempt h).0 ≡ false
        → Attempt env (wait_before env attempt h).1 o h'
        → IsFinal o
        → Retries (suc rounds) attempt last h o h'
    again :
        (rounds attempt : ℕ) (last : Option Error) (h h1 h' : History) (e : Error) (o : Outcome)
        → (wait_before env attempt h).0 ≡ false
        → Attempt env (wait_before env attempt h).1 (finished (some e)) h1
        → is_retryable e ≡ true
        → Retries rounds (attempt + 1) (some e) h1 o h'
        → Retries (suc rounds) attempt last h o h'

  module _ (rounds attempt : ℕ) (last : Option Error) (h : History)
      (ready : (wait_before env attempt h).0 ≡ false)
      (next : (e : Error) (h1 : History)
        → Retries rounds
            (attempt + 1)
            (some e)
            h1
            (retry_loop env rounds (attempt + 1) (some e) h1).0
            (retry_loop env rounds (attempt + 1) (some e) h1).1) where
    after_attempt-Retries :
        (o : Outcome) (h1 : History)
        → Attempt env (wait_before env attempt h).1 o h1
        → Retries
            (suc rounds)
            attempt
            last
            h
            (after_attempt o h1 (λ e. retry_loop env rounds (attempt + 1) (some e) h1)).0
            (after_attempt o h1 (λ e. retry_loop env rounds (attempt + 1) (some e) h1)).1
    unfolding after_attempt
    after_attempt-Retries panicking h1 a = stopped rounds attempt last h h1 panicking ready a tt
    after_attempt-Retries (finished none) h1 a =
        stopped rounds attempt last h h1 (finished none) ready a tt
    after_attempt-Retries (finished (some e)) h1 a = elim (Bool-cases (is_retryable e)) [
      | inl r ↦ rw r (again rounds attempt last h h1 _ e _ ready a r (next e h1))
      | inr r ↦ rw r (stopped rounds attempt last h h1 (finished (some e)) ready a r)
    ]

  -- The loop makes exactly the runs of the relation.
  pub retry_loop-Retries :
      (rounds attempt : ℕ) (last : Option Error) (h : History)
      → Retries rounds attempt last h
          (retry_loop env rounds attempt last h).0
          (retry_loop env rounds attempt last h).1
  unfolding retry_loop
  retry_loop-Retries zero attempt last h = exhausted attempt last h
  retry_loop-Retries (suc rounds) attempt last h = elim (Bool-cases (wait_before env attempt h).0) [
    | inl c ↦ rw c (cancelled rounds attempt last h c)
    | inr c ↦ rw c (
        after_attempt-Retries rounds attempt last h c
          (λ e h1. retry_loop-Retries rounds (attempt + 1) (some e) h1)
          (execute_tx env (wait_before env attempt h).1).0
          (execute_tx env (wait_before env attempt h).1).1
          (execute_tx-Attempt env (wait_before env attempt h).1))
  ]
