-- ===== src/Postgres/Tx/Runs.antt =====
-- postgres/txmanager.go: the calls that `WithTx` makes outside a transaction.
use txova_go_db.Prelude.{
  ℕ, zero, suc, ◌+◌, ◌≤◌, ◌≡◌, refl, true, [], ◌∷◌, Option, none, some, arith, subst,
}
use txova_go_db.Prelude.Int.{ℤ}
use txova_go_db.Text.{codes}
use txova_go_db.Postgres.Errors.{Error, wrap, is_retryable, code_connection}
use txova_go_db.Postgres.Errors.Chain.{is_retryable-wrap_connection}
use txova_go_db.Postgres.Tx.{
  Call, begin, run, commit, rollback, wait, History, returned, Environment, Outcome, finished,
  wait_before, rounds_of, execute_with_retry,
}
use txova_go_db.Postgres.Tx.Attempt.{
  Attempt, not_begun, committed, commit_failed, rolled_back, panicked_again,
}
use txova_go_db.Postgres.Tx.Retry.{
  Retries, exhausted, cancelled, stopped, again, retry_loop-Retries,
}

-- Every function that ran is followed at once by one commit or one rollback of its transaction, and
-- begins stand in front of it.
pub data IsSettled : History → Type 0 where
  start : IsSettled []
  waited : {h : History} (n : ℕ) → IsSettled h → IsSettled (wait n ∷ h)
  failed : {h : History} → IsSettled h → IsSettled (begin ∷ h)
  by_commit : {h : History} (tx : ℕ) → IsSettled h → IsSettled (commit tx ∷ run tx ∷ begin ∷ h)
  by_rollback : {h : History} (tx : ℕ) → IsSettled h → IsSettled (rollback tx ∷ run tx ∷ begin ∷ h)

abbrev one_begin : Call → ℕ
one_begin begin = 1
one_begin _ = 0

abbrev one_commit : Call → ℕ
one_commit (commit tx) = 1
one_commit _ = 0

abbrev pub count_begins : History → ℕ
count_begins [] = 0
count_begins (c ∷ h) = one_begin c + count_begins h

abbrev pub count_commits : History → ℕ
count_commits [] = 0
count_commits (c ∷ h) = one_commit c + count_commits h

module _ (env : Environment) where
  wait_before-IsSettled :
      (attempt : ℕ) (h : History) → IsSettled h → IsSettled (wait_before env attempt h).1
  unfolding wait_before
  wait_before-IsSettled zero h s = s
  wait_before-IsSettled (suc n) h s = waited (suc n) s

  pub count_begins-wait_before :
      (attempt : ℕ) (h : History) → count_begins (wait_before env attempt h).1 ≡ count_begins h
  unfolding wait_before
  count_begins-wait_before zero h = refl
  count_begins-wait_before (suc n) h = omega arith

  count_commits-wait_before :
      (attempt : ℕ) (h : History) → count_commits (wait_before env attempt h).1 ≡ count_commits h
  unfolding wait_before
  count_commits-wait_before zero h = refl
  count_commits-wait_before (suc n) h = omega arith

  module _ {h : History} {o : Outcome} {h' : History} where
    Attempt-IsSettled : Attempt env h o h' → IsSettled h → IsSettled h'
    Attempt-IsSettled (not_begun e _ _ p) s = rw p (failed s)
    Attempt-IsSettled (committed tx _ _ _ _ p) s = rw p (by_commit tx s)
    Attempt-IsSettled (commit_failed tx e _ _ _ _ p) s = rw p (by_commit tx s)
    Attempt-IsSettled (rolled_back tx e _ _ _ p) s = rw p (by_rollback tx s)
    Attempt-IsSettled (panicked_again tx _ _ _ p) s = rw p (by_rollback tx s)

    Attempt-begins : Attempt env h o h' → count_begins h' ≡ count_begins h + 1
    Attempt-begins (not_begun e _ _ p) = rw p (omega arith)
    Attempt-begins (committed tx _ _ _ _ p) = rw p (omega arith)
    Attempt-begins (commit_failed tx e _ _ _ _ p) = rw p (omega arith)
    Attempt-begins (rolled_back tx e _ _ _ p) = rw p (omega arith)
    Attempt-begins (panicked_again tx _ _ _ p) = rw p (omega arith)

    Attempt-commits : Attempt env h o h' → count_commits h' ≤ count_commits h + 1
    Attempt-commits (not_begun e _ _ p) = rw p (omega arith)
    Attempt-commits (committed tx _ _ _ _ p) = rw p (omega arith)
    Attempt-commits (commit_failed tx e _ _ _ _ p) = rw p (omega arith)
    Attempt-commits (rolled_back tx e _ _ _ p) = rw p (omega arith)
    Attempt-commits (panicked_again tx _ _ _ p) = rw p (omega arith)

  -- An attempt that is tried again has committed nothing: a failed commit is no retryable error.
  Attempt-again :
      {h h' : History} (e : Error)
      → Attempt env h (finished (some e)) h'
      → is_retryable e ≡ true
      → count_commits h' ≡ count_commits h
  Attempt-again e (not_begun x _ _ p) r = rw p (omega arith)
  Attempt-again e (committed tx _ _ _ o p) r = cc
  Attempt-again e (commit_failed tx x _ _ _ o p) r =
      let same : e ≡ wrap code_connection (codes "failed to commit transaction") (some x) = cc in
      let never = is_retryable-wrap_connection (codes "failed to commit transaction") (some x) in cc
  Attempt-again e (rolled_back tx x _ _ _ p) r = rw p (omega arith)
  Attempt-again e (panicked_again tx _ _ o p) r = cc

  Retries-IsSettled :
      {rounds attempt : ℕ} {last : Option Error} {h h' : History} {o : Outcome}
      → Retries env rounds attempt last h o h'
      → IsSettled h
      → IsSettled h'
  Retries-IsSettled (exhausted a l h) s = s
  Retries-IsSettled (cancelled r a l h c) s = wait_before-IsSettled a h s
  Retries-IsSettled (stopped r a l h h' o c t f) s =
      Attempt-IsSettled t (wait_before-IsSettled a h s)
  Retries-IsSettled (again r a l h h1 h' e o c t y n) s =
      Retries-IsSettled n (Attempt-IsSettled t (wait_before-IsSettled a h s))

  Retries-begins :
      {rounds attempt : ℕ} {last : Option Error} {h h' : History} {o : Outcome}
      → Retries env rounds attempt last h o h'
      → count_begins h' ≤ count_begins h + rounds
  Retries-begins (exhausted a l h) = omega arith
  Retries-begins (cancelled r a l h c) = omega (arith, count_begins-wait_before a h)
  Retries-begins (stopped r a l h h' o c t f) =
      omega (arith, count_begins-wait_before a h, Attempt-begins t)
  Retries-begins (again r a l h h1 h' e o c t y n) =
      omega (arith, count_begins-wait_before a h, Attempt-begins t, Retries-begins n)

  Retries-commits :
      {rounds attempt : ℕ} {last : Option Error} {h h' : History} {o : Outcome}
      → Retries env rounds attempt last h o h'
      → count_commits h' ≤ count_commits h + 1
  Retries-commits (exhausted a l h) = omega arith
  Retries-commits (cancelled r a l h c) = omega (arith, count_commits-wait_before a h)
  Retries-commits (stopped r a l h h' o c t f) =
      omega (arith, count_commits-wait_before a h, Attempt-commits t)
  Retries-commits (again r a l h h1 h' e o c t y n) =
      omega (arith, count_commits-wait_before a h, Attempt-again e t y, Retries-commits n)

  -- The last calls are a run whose function returned nil and its commit, which succeeded.
  pub record EndsCommitted (h : History) : Type 0 where
    pub before : History
    pub tx : ℕ
    pub calls : h ≡ commit tx ∷ run tx ∷ begin ∷ before
    pub returned_nil : env.fn (begin ∷ before) tx ≡ returned none
    pub committed : env.driver_commit (run tx ∷ begin ∷ before) tx ≡ none

  Attempt-EndsCommitted : {h h' : History} → Attempt env h (finished none) h' → EndsCommitted h'
  Attempt-EndsCommitted (not_begun e _ o p) = cc
  Attempt-EndsCommitted {h} (committed tx b f c o p) = record {
    before = h;
    tx = tx;
    calls = p;
    returned_nil = f;
    committed = c;
  }
  Attempt-EndsCommitted (commit_failed tx e _ _ _ o p) = cc
  Attempt-EndsCommitted (rolled_back tx e _ _ o p) = cc
  Attempt-EndsCommitted (panicked_again tx _ _ o p) = cc

  Retries-EndsCommitted :
      {rounds attempt : ℕ} {last : Option Error} {h h' : History} {o : Outcome}
      → Retries env rounds attempt last h o h'
      → o ≡ finished none
      → EndsCommitted h'
  Retries-EndsCommitted (exhausted a l h) p = cc
  Retries-EndsCommitted (cancelled r a l h c) p = cc
  Retries-EndsCommitted (stopped r a l h h' o c t f) p =
      Attempt-EndsCommitted (subst (λ x. Attempt env (wait_before env a h).1 x h') p t)
  Retries-EndsCommitted (again r a l h h1 h' e o c t y n) p = Retries-EndsCommitted n p

  run_of :
      (max_retries : ℤ) (h : History)
      → Retries env
          (rounds_of max_retries)
          0
          none
          h
          (execute_with_retry env max_retries h).0
          (execute_with_retry env max_retries h).1
  unfolding execute_with_retry
  run_of max_retries h = retry_loop-Retries env (rounds_of max_retries) 0 none h

  -- Outside a transaction, whatever the driver, the function and the context answer: each function
  -- that ran is followed at once by one commit or one rollback of its transaction, at most
  -- MaxRetries + 1 transactions are begun (none for a negative MaxRetries), and at most one commit
  -- is sent.
  pub execute_with_retry-IsSettled :
      (max_retries : ℤ) (h : History)
      → IsSettled h
      → IsSettled (execute_with_retry env max_retries h).1
        × (count_begins (execute_with_retry env max_retries h).1
            ≤ count_begins h + rounds_of max_retries)
        × (count_commits (execute_with_retry env max_retries h).1 ≤ count_commits h + 1)
  execute_with_retry-IsSettled max_retries h s =
      let made = run_of max_retries h in
      (Retries-IsSettled made s, Retries-begins made, Retries-commits made)

  -- Outside a transaction, if `WithTx` returns nil then the last calls were a run whose function
  -- returned nil and its commit, which succeeded.
  pub execute_with_retry-EndsCommitted :
      (max_retries : ℤ) (h : History)
      → (execute_with_retry env max_retries h).0 ≡ finished none
      → EndsCommitted (execute_with_retry env max_retries h).1
  execute_with_retry-EndsCommitted max_retries h = Retries-EndsCommitted (run_of max_retries h)
