-- ===== src/Postgres/Tx/Attempt.antt =====
-- One attempt of `executeTx`, branch by branch.
use txova_go_db.Prelude.{ℕ, ◌≡◌, refl, ◌∷◌, Option, none, some, Result, ok, err}
use txova_go_db.Text.{codes}
use txova_go_db.Postgres.Errors.{Error, wrap, code_connection}
use txova_go_db.Postgres.Tx.{
  begin, run, commit, rollback, History, Ending, returned, panicked, Environment, Outcome, finished,
  panicking, end_tx, execute_tx,
}

module _ (env : Environment) where
  open env use {driver_begin, driver_commit, fn}

  -- What an attempt from the calls `h` may come to: its outcome and the calls after it.
  pub data Attempt (h : History) (o : Outcome) (h' : History) : Type 0 where
    not_begun :
        (e : Error)
        → driver_begin h ≡ err e
        → o ≡ finished (some (wrap code_connection (codes "failed to begin transaction") (some e)))
        → h' ≡ begin ∷ h
        → Attempt h o h'
    committed :
        (tx : ℕ)
        → driver_begin h ≡ ok tx
        → fn (begin ∷ h) tx ≡ returned none
        → driver_commit (run tx ∷ begin ∷ h) tx ≡ none
        → o ≡ finished none
        → h' ≡ commit tx ∷ run tx ∷ begin ∷ h
        → Attempt h o h'
    commit_failed :
        (tx : ℕ) (e : Error)
        → driver_begin h ≡ ok tx
        → fn (begin ∷ h) tx ≡ returned none
        → driver_commit (run tx ∷ begin ∷ h) tx ≡ some e
        → o ≡ finished (some (wrap code_connection (codes "failed to commit transaction") (some e)))
        → h' ≡ commit tx ∷ run tx ∷ begin ∷ h
        → Attempt h o h'
    rolled_back :
        (tx : ℕ) (e : Error)
        → driver_begin h ≡ ok tx
        → fn (begin ∷ h) tx ≡ returned (some e)
        → o ≡ finished (some e)
        → h' ≡ rollback tx ∷ run tx ∷ begin ∷ h
        → Attempt h o h'
    panicked_again :
        (tx : ℕ)
        → driver_begin h ≡ ok tx
        → fn (begin ∷ h) tx ≡ panicked
        → o ≡ panicking
        → h' ≡ rollback tx ∷ run tx ∷ begin ∷ h
        → Attempt h o h'

  end_tx-Attempt :
      (h : History) (tx : ℕ) (ending : Ending) (answer : Option Error)
      → driver_begin h ≡ ok tx
      → fn (begin ∷ h) tx ≡ ending
      → driver_commit (run tx ∷ begin ∷ h) tx ≡ answer
      → Attempt h
          (end_tx env tx ending (run tx ∷ begin ∷ h)).0
          (end_tx env tx ending (run tx ∷ begin ∷ h)).1
  unfolding end_tx
  end_tx-Attempt h tx panicked answer b f c = panicked_again tx b f refl refl
  end_tx-Attempt h tx (returned (some e)) answer b f c = rolled_back tx e b f refl refl
  end_tx-Attempt h tx (returned none) none b f c = committed tx b f c (rw c) refl
  end_tx-Attempt h tx (returned none) (some e) b f c = commit_failed tx e b f c (rw c) refl

  begun-Attempt :
      (h : History) (answer : Result Error ℕ)
      → driver_begin h ≡ answer
      → Attempt h (execute_tx env h).0 (execute_tx env h).1
  unfolding execute_tx
  begun-Attempt h (err e) b = not_begun e b (rw b) (rw b)
  begun-Attempt h (ok tx) b = rw b (end_tx-Attempt h tx (fn (begin ∷ h) tx) _ b refl refl)

  -- Every attempt begins a transaction; if that succeeds it runs the function once and then commits
  -- exactly if the function returned nil, and rolls back if it returned an error or panicked; the
  -- outcome is the commit's answer, the function's error, or the panic.
  pub execute_tx-Attempt : (h : History) → Attempt h (execute_tx env h).0 (execute_tx env h).1
  execute_tx-Attempt h = begun-Attempt h (driver_begin h) refl
