-- ===== src/Postgres/Tx.antt =====
-- postgres/txmanager.go and the wrapper `pgxTx` of postgres/tx.go. What the code calls and does not
-- implement (the driver, the caller's function, the context) answers from the calls made so far.
pub mod Attempt
pub mod Retry
pub mod Runs
pub mod Endings
pub mod Delay
mod Options
mod Tests
use txova_go_db.Prelude.{
  ℕ, zero, suc, ◌+◌, Bool, true, false, List, [], ◌∷◌, Option, none, some, Result, ok, err, ltb,
  if◌then◌else◌, not,
}
use txova_go_db.Prelude.Int.{ℤ, pos, negsuc}
use txova_go_db.Text.{Text, codes}
use txova_go_db.Postgres.Errors.{
  Error, wrap, is_retryable, code_connection, code_timeout, code_serialization,
}

-- A call that the manager makes, with the transaction that it concerns.
pub data Call : Type 0 where
  begin : Call
  run commit rollback : ℕ → Call
  wait : ℕ → Call

-- The calls made so far, the last one first.
abbrev pub History : Type 0
History = List Call

-- How the caller's function ends.
pub data Ending : Type 0 where
  returned : Option Error → Ending
  panicked : Ending

-- What the driver, the caller's function and the context answer after the calls so far.
pub record Environment : Type 0 where
  pub driver_begin : History → Result Error ℕ
  pub driver_commit : History → ℕ → Option Error
  pub driver_rollback : History → ℕ → Option Error
  pub fn : History → ℕ → Ending
  pub is_done : History → Bool

-- `WithTx` returns an error or nil, or panics again.
pub data Outcome : Type 0 where
  finished : Option Error → Outcome
  panicking : Outcome

begin_answer : Result Error ℕ → Result Error ℕ
begin_answer (ok tx) = ok tx
begin_answer (err e) = err (wrap code_connection (codes "failed to begin transaction") (some e))

commit_answer : Option Error → Option Error
commit_answer none = none
commit_answer (some e) = some (wrap code_connection (codes "failed to commit transaction") (some e))

rollback_answer : Option Error → Option Error
rollback_answer none = none
rollback_answer (some e) =
    some (wrap code_connection (codes "failed to rollback transaction") (some e))

-- The end of a round: only a retryable error leads to the next one.
after_attempt : Outcome → History → (Error → Outcome × History) → Outcome × History
after_attempt panicking h again = (panicking, h)
after_attempt (finished none) h again = (finished none, h)
after_attempt (finished (some e)) h again =
    if is_retryable e then again e else (finished (some e), h)

pub cancelled_error : Error
cancelled_error =
    wrap code_timeout (codes "context cancelled during retry") (some Error.context_done)

pub exhausted_error : Option Error → Error
exhausted_error last_err =
    wrap code_serialization (codes "transaction failed after max retries") last_err

-- `for attempt := 0; attempt <= MaxRetries; attempt++` makes this many rounds.
abbrev pub rounds_of : ℤ → ℕ
rounds_of (pos n) = suc n
rounds_of (negsuc n) = 0

-- What the caller's function makes of a transaction that is in the context already.
nested : Ending → Outcome
nested (returned e) = finished e
nested panicked = panicking

module _ (env : Environment) where
  open env use {driver_begin, driver_commit, driver_rollback, fn, is_done}

  -- `pgxPool.BeginTx`
  pub begin_tx : History → Result Error ℕ × History
  unfolding begin_answer
  begin_tx h = (begin_answer (driver_begin h), begin ∷ h)

  -- `pgxTx.Commit`
  pub commit_tx : ℕ → History → Option Error × History
  unfolding commit_answer
  commit_tx tx h = (commit_answer (driver_commit h tx), commit tx ∷ h)

  -- `pgxTx.Rollback`
  pub rollback_tx : ℕ → History → Option Error × History
  unfolding rollback_answer
  rollback_tx tx h = (rollback_answer (driver_rollback h tx), rollback tx ∷ h)

  -- The rest of `executeTx` after the function: an error of the rollback is logged and dropped.
  pub end_tx : ℕ → Ending → History → Outcome × History
  unfolding commit_tx rollback_tx
  end_tx tx panicked h = (panicking, (rollback_tx tx h).1)
  end_tx tx (returned (some e)) h = (finished (some e), (rollback_tx tx h).1)
  end_tx tx (returned none) h = let (result, h') = commit_tx tx h in (finished result, h')

  -- `executeTx` behind `BeginTx`.
  continue_tx : Result Error ℕ → History → Outcome × History
  unfolding end_tx
  continue_tx (err e) h = (finished (some e), h)
  continue_tx (ok tx) h = end_tx tx (fn h tx) (run tx ∷ h)

  -- `executeTx`
  pub execute_tx : History → Outcome × History
  unfolding begin_tx continue_tx
  execute_tx h = let (begun, h') = begin_tx h in continue_tx begun h'

  -- The wait before a retry; the first attempt has none. `true` means that the context is done.
  pub wait_before : ℕ → History → Bool × History
  wait_before zero h = (false, h)
  wait_before (suc attempt) h = (is_done h, wait (suc attempt) ∷ h)

  -- The loop of `executeWithRetry`, with the rounds that are left.
  pub retry_loop : ℕ → ℕ → Option Error → History → Outcome × History
  unfolding execute_tx wait_before after_attempt cancelled_error exhausted_error
  retry_loop zero attempt last_err h = (finished (some (exhausted_error last_err)), h)
  retry_loop (suc rounds) attempt last_err h =
      let (cancelled, waited) = wait_before attempt h in
      let (outcome, h') = execute_tx waited in
      let next = after_attempt outcome h' (λ e. retry_loop rounds (attempt + 1) (some e) h') in
      if cancelled then (finished (some cancelled_error), waited) else next

  pub execute_with_retry : ℤ → History → Outcome × History
  unfolding retry_loop
  execute_with_retry max_retries h = retry_loop (rounds_of max_retries) 0 none h

  -- `WithTxOptions`, with the transaction of the context if there is one.
  abbrev pub with_tx_options : ℤ → Option ℕ → History → Outcome × History
  unfolding execute_with_retry nested
  with_tx_options max_retries (some tx) h = (nested (fn h tx), run tx ∷ h)
  with_tx_options max_retries none h = execute_with_retry max_retries h
