-- ===== src/Postgres/Errors/Kinds.antt =====
-- postgres/errors.go: the text of an error, its copies with another message or cause, and the
-- constructors and predicates that name one code each.
use txova_go_db.Prelude.{
  ◌≡◌, refl, Bool, true, false, [], ◌∷◌, ◌++◌, Option, none, some, if◌then◌else◌, Bool-cases, inl,
  inr, subst, sym, ◌∙◌,
}
use txova_go_db.Text.{Text, codes, text_eq}
use txova_go_db.Text.Equality.{text_eq_iff}
use txova_go_db.Postgres.Errors.{
  Error, DbError, PgError, new, wrap, as_error, as_pg_error, is_code, from_pg_error, converted,
  map_sql_state, class_code, code_not_found, code_duplicate, code_foreign_key, code_connection,
  code_timeout, code_serialization, code_deadlock, code_internal,
}

-- `Error()`, given the texts of the errors of other packages.
module _ (foreign : Error → Text) where
  abbrev error_text : Error → Text
  error_text (Error.db e) = e.code ++ (codes ": " ++ e.message)
  error_text (Error.db_cause e cause) =
      e.code ++ (codes ": " ++ (e.message ++ (codes ": " ++ error_text cause)))
  error_text e = foreign e

-- `WithMessage` and `WithCause`, of the fields and the cause.
abbrev with_message : Text → DbError → DbError
with_message message e = record e { message = message }

abbrev with_cause : Option Error → DbError → Error
with_cause none e = Error.db e
with_cause (some cause) e = Error.db_cause e cause

-- `errors.Is(err, pgx.ErrNoRows)`
pub is_no_rows : Error → Bool
is_no_rows Error.no_rows = true
is_no_rows (Error.db_cause e cause) = is_no_rows cause
is_no_rows (Error.other_cause m cause) = is_no_rows cause
is_no_rows _ = false

-- `IsError`
unfoldable is_error : Error → Bool
is_error e = elim (as_error e) [ some r ↦ true | none ↦ false ]

pub is_not_found : Error → Bool
unfolding is_no_rows
is_not_found e = if is_no_rows e then true else is_code e code_not_found

unfoldable not_found : Text → Error
not_found message = new code_not_found message

unfoldable duplicate : Text → Error
duplicate message = new code_duplicate message

unfoldable foreign_key : Text → Error
foreign_key message = new code_foreign_key message

unfoldable connection : Text → Error
connection message = new code_connection message

-- `ConnectionWrap`
unfoldable connection_wrap : Text → Error → Error
connection_wrap message cause = wrap code_connection message (some cause)

unfoldable timeout : Text → Error
timeout message = new code_timeout message

-- `TimeoutWrap`
unfoldable timeout_wrap : Text → Error → Error
timeout_wrap message cause = wrap code_timeout message (some cause)

unfoldable internal : Text → Error
internal message = new code_internal message

-- `InternalWrap`
unfoldable internal_wrap : Text → Error → Error
internal_wrap message cause = wrap code_internal message (some cause)

pub is_duplicate : Error → Bool
is_duplicate e = is_code e code_duplicate

pub is_foreign_key : Error → Bool
is_foreign_key e = is_code e code_foreign_key

unfoldable is_connection : Error → Bool
is_connection e = is_code e code_connection

pub is_timeout : Error → Bool
is_timeout e = is_code e code_timeout

pub is_serialization : Error → Bool
is_serialization e = is_code e code_serialization

pub is_deadlock : Error → Bool
is_deadlock e = is_code e code_deadlock

-- The codes that the predicates ask for, by the SQLSTATE.
abbrev StateCodes : Text → Type 0
StateCodes s =
    (text_eq (map_sql_state s) code_duplicate ≡ text_eq s (codes "23505"))
    × (text_eq (map_sql_state s) code_foreign_key ≡ text_eq s (codes "23503"))
    × (text_eq (map_sql_state s) code_serialization ≡ text_eq s (codes "40001"))
    × (text_eq (map_sql_state s) code_deadlock ≡ text_eq s (codes "40P01"))
    × (text_eq (map_sql_state s) code_timeout ≡ text_eq s (codes "57014"))

-- A class stands for none of them.
class_code-none :
    (s : Text)
    → (text_eq (class_code s) code_duplicate ≡ false)
      × (text_eq (class_code s) code_foreign_key ≡ false)
      × (text_eq (class_code s) code_serialization ≡ false)
      × (text_eq (class_code s) code_deadlock ≡ false)
      × (text_eq (class_code s) code_timeout ≡ false)
unfolding class_code text_eq
class_code-none [] = (refl, refl, refl, refl, refl)
class_code-none (a ∷ []) = (refl, refl, refl, refl, refl)
class_code-none (a ∷ b ∷ s) = elim (Bool-cases (text_eq (a ∷ b ∷ []) (codes "08"))) [
  | inl e ↦ rw e (refl, refl, refl, refl, refl)
  | inr e ↦ rw e (refl, refl, refl, refl, refl)
]

known : (s t : Text) → text_eq s t ≡ true → StateCodes t → StateCodes s
known s t e h = subst StateCodes (sym ((text_eq_iff s t).0 e)) h

map_sql_state-StateCodes : (s : Text) → StateCodes s
unfolding map_sql_state text_eq
map_sql_state-StateCodes s = elim (Bool-cases (text_eq s (codes "23505"))) [
  | inl e ↦ known s (codes "23505") e (refl, refl, refl, refl, refl)
  | inr e1 ↦ elim (Bool-cases (text_eq s (codes "23503"))) [
    | inl e ↦ known s (codes "23503") e (refl, refl, refl, refl, refl)
    | inr e2 ↦ elim (Bool-cases (text_eq s (codes "23514"))) [
      | inl e ↦ known s (codes "23514") e (refl, refl, refl, refl, refl)
      | inr e3 ↦ elim (Bool-cases (text_eq s (codes "23502"))) [
        | inl e ↦ known s (codes "23502") e (refl, refl, refl, refl, refl)
        | inr e4 ↦ elim (Bool-cases (text_eq s (codes "40001"))) [
          | inl e ↦ known s (codes "40001") e (refl, refl, refl, refl, refl)
          | inr e5 ↦ elim (Bool-cases (text_eq s (codes "40P01"))) [
            | inl e ↦ known s (codes "40P01") e (refl, refl, refl, refl, refl)
            | inr e6 ↦ elim (Bool-cases (text_eq s (codes "57014"))) [
              | inl e ↦ known s (codes "57014") e (refl, refl, refl, refl, refl)
              | inr e7 ↦ rw (e1, e2, e3, e4, e5, e6, e7) (class_code-none s)
            ]
          ]
        ]
      ]
    ]
  ]
]

converted-code :
    (err : Error) (e : PgError) (code : Text)
    → as_pg_error err ≡ some e
    → is_code (from_pg_error err) code ≡ text_eq (map_sql_state e.code) code
unfolding from_pg_error converted is_code as_error
converted-code err e code h = rw h refl

-- When the chain of an error of the driver holds a PostgreSQL error, the predicates on what
-- `FromPgError` makes of it answer by its SQLSTATE: duplicate for 23505, foreign key for 23503,
-- serialization for 40001, deadlock for 40P01 and timeout for 57014, each for no other.
pub is_duplicate-from_pg_error :
    (err : Error) (e : PgError)
    → as_pg_error err ≡ some e
    → (is_duplicate (from_pg_error err) ≡ text_eq e.code (codes "23505"))
      × (is_foreign_key (from_pg_error err) ≡ text_eq e.code (codes "23503"))
      × (is_serialization (from_pg_error err) ≡ text_eq e.code (codes "40001"))
      × (is_deadlock (from_pg_error err) ≡ text_eq e.code (codes "40P01"))
      × (is_timeout (from_pg_error err) ≡ text_eq e.code (codes "57014"))
unfolding is_duplicate is_foreign_key is_serialization is_deadlock is_timeout
is_duplicate-from_pg_error err e h =
    let code = λ (c : Text). converted-code err e c h in
    let (d, f, s, l, t) = map_sql_state-StateCodes e.code in
    (
      code code_duplicate ∙ d,
      code code_foreign_key ∙ f,
      code code_serialization ∙ s,
      code code_deadlock ∙ l,
      code code_timeout ∙ t,
    )
