-- ===== src/Postgres/Tx/Endings.antt =====
-- How `executeWithRetry` ends when every attempt fails, and when a commit fails.
use txova_go_db.Prelude.{
  ℕ, zero, suc, ◌+◌, ◌≡◌, refl, ap, ◌∙◌, true, false, ◌∷◌, Option, none, some, arith, ok,
}
use txova_go_db.Prelude.Int.{pos}
use txova_go_db.Text.{codes}
use txova_go_db.Postgres.Errors.{Error, wrap, is_retryable, code_connection}
use txova_go_db.Postgres.Errors.Chain.{is_retryable-wrap_connection}
use txova_go_db.Postgres.Tx.{
  begin, run, commit, rollback, History, returned, Environment, finished, begin_answer, continue_tx,
  execute_tx, wait_before, exhausted_error, retry_loop, execute_with_retry,
}
use txova_go_db.Postgres.Tx.Runs.{count_begins, count_begins-wait_before}

module _ (env : Environment) where
  open env use {driver_begin, driver_commit, fn, is_done}

  module _ (e : Error) (begins : (h : History) → (tx : ℕ) × (driver_begin h ≡ ok tx))
      (fails : (h : History) (tx : ℕ) → fn h tx ≡ returned (some e))
      (waits : (h : History) → is_done h ≡ false) (retryable : is_retryable e ≡ true) where
    wait_before-ready : (attempt : ℕ) (h : History) → (wait_before env attempt h).0 ≡ false
    unfolding wait_before
    wait_before-ready zero h = refl
    wait_before-ready (suc n) h = waits h

    execute_tx-fails :
        (h : History)
        → (tx : ℕ) × (execute_tx env h ≡ (finished (some e), rollback tx ∷ run tx ∷ begin ∷ h))
    unfolding execute_tx
    execute_tx-fails h =
        let (tx, begun) = begins h in
        (tx, rw (begun, begin_answer, continue_tx) (rw (fails (begin ∷ h) tx) refl))

    -- The error that the loop keeps when it is left.
    abbrev kept : ℕ → Option Error → Option Error
    kept zero last = last
    kept (suc n) last = some e

    kept-some : (n : ℕ) → kept n (some e) ≡ some e
    kept-some zero = refl
    kept-some (suc n) = refl

    retry_loop-exhausted :
        (rounds attempt : ℕ) (last : Option Error) (h : History)
        → ((retry_loop env rounds attempt last h).0
            ≡ finished (some (exhausted_error (kept rounds last))))
          × (count_begins (retry_loop env rounds attempt last h).1 ≡ count_begins h + rounds)
    unfolding retry_loop
    retry_loop-exhausted zero attempt last h = (refl, omega arith)
    retry_loop-exhausted (suc r) attempt last h =
        let waited = (wait_before env attempt h).1 in
        let (tx, failed) = execute_tx-fails waited in
        let h' = rollback tx ∷ run tx ∷ begin ∷ waited in
        let (o, b) = retry_loop-exhausted r (attempt + 1) (some e) h' in
        rw (wait_before-ready attempt h, failed, retryable)
          (
            o ∙ ap (λ k. finished (some (exhausted_error k))) (kept-some r),
            omega (arith, b, count_begins-wait_before env attempt h),
          )

    -- If every transaction can be begun, whichever it is, the function always returns the same
    -- retryable error and the context is never done, then a call with MaxRetries = n makes n + 1 attempts and returns
    -- the serialization error with that error as its cause.
    pub execute_with_retry-exhausted :
        (n : ℕ) (h : History)
        → ((execute_with_retry env (pos n) h).0 ≡ finished (some (exhausted_error (some e))))
          × (count_begins (execute_with_retry env (pos n) h).1 ≡ count_begins h + n + 1)
    unfolding execute_with_retry
    execute_with_retry-exhausted n h =
        let (o, b) = retry_loop-exhausted (suc n) 0 none h in (o, omega (arith, b))

  -- A commit that fails is not tried again, not even after a serialization failure: if the first
  -- attempt's function returns nil and its commit fails, the call returns a connection error with
  -- the commit's error as its cause, after one begin, one run and one commit.
  pub execute_with_retry-commit_fails :
      (n tx : ℕ) (e : Error) (h : History)
      → driver_begin h ≡ ok tx
      → fn (begin ∷ h) tx ≡ returned none
      → driver_commit (run tx ∷ begin ∷ h) tx ≡ some e
      → execute_with_retry env (pos n) h ≡ (
        finished (some (wrap code_connection (codes "failed to commit transaction") (some e))),
        commit tx ∷ run tx ∷ begin ∷ h,
      )
  unfolding execute_with_retry retry_loop
  execute_with_retry-commit_fails n tx e h b f c =
      rw (b, f, c)
        (rw (is_retryable-wrap_connection (codes "failed to commit transaction") (some e)) refl)
