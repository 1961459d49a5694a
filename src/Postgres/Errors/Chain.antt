-- ===== src/Postgres/Errors/Chain.antt =====
-- What callers see of an error behind the errors that wrap it.
use txova_go_db.Prelude.{◌≡◌, refl, ◌∙◌, ◌↔◌, true, false, Option, none, some, subst, ◌||◌}
use txova_go_db.Text.{Text, codes, text_eq}
use txova_go_db.Postgres.Errors.{
  Error, PgError, wrap, as_error, as_pg_error, converted, from_pg_error, is_retryable,
  code_internal, code_connection, code_serialization, code_deadlock, Code,
}
use txova_go_db.Postgres.Errors.SqlState.{IsRetryState, retry_code_iff}

as_error-wrap-retry :
    (code : Code) (m : Text) (cause : Option Error)
    → is_retryable (wrap code m cause)
      ≡ (text_eq code code_serialization || text_eq code code_deadlock)
unfolding wrap is_retryable as_error
as_error-wrap-retry code m none = refl
as_error-wrap-retry code m (some e) = refl

-- A wrapped error is tried again by its own code, whatever the cause is.
pub is_retryable-wrap_connection :
    (m : Text) (cause : Option Error) → is_retryable (wrap code_connection m cause) ≡ false
is_retryable-wrap_connection m cause =
    as_error-wrap-retry code_connection m cause ∙ (unfold text_eq in refl)

converted-retry :
    (err : Error) (o : Option PgError)
    → (is_retryable (converted err o) ≡ true) ↔ ((e : PgError) × (o ≡ some e) × IsRetryState e.code)
unfolding converted
converted-retry err none = (
  λ h.
      let w = as_error-wrap-retry code_internal (codes "database error") (some err) in
      let c : (text_eq code_internal code_serialization || text_eq code_internal code_deadlock)
          ≡ false =
        unfold text_eq in refl in
      cc,
  λ (e, q, r). cc,
)
converted-retry err (some e) = (
  λ h. (e, refl, (retry_code_iff e.code).0 (unfold is_retryable as_error in h)),
  λ (e', q, r).
      let same : e' ≡ e = cc in
      let state = subst (λ (x : PgError). IsRetryState x.code) same r in
      unfold is_retryable as_error in (retry_code_iff e.code).1 state,
)

-- An error of the driver that `FromPgError` has converted is tried again exactly if the first
-- PostgreSQL error of its chain is a serialization failure or a deadlock.
pub is_retryable-from_pg_error :
    (err : Error)
    → (is_retryable (from_pg_error err) ≡ true)
      ↔ ((e : PgError) × (as_pg_error err ≡ some e) × IsRetryState e.code)
unfolding from_pg_error
is_retryable-from_pg_error err = converted-retry err (as_pg_error err)
