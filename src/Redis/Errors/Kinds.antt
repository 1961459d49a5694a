-- ===== src/Redis/Errors/Kinds.antt =====
-- redis/errors.go: the constructors and the predicates that name one code each.
use txova_go_db.Prelude.{◌≡◌, refl, Bool, true, false, none, some}
use txova_go_db.Text.{Text, text_eq}
use txova_go_db.Redis.Errors.{
  Error, new_error, wrap, as_error, is_code, code_not_found, code_connection, code_timeout,
  code_lock_failed, code_lock_not_held, code_rate_limited, code_serialization, code_internal,
}

abbrev pub not_found : Text → Error
not_found message = new_error code_not_found message

unfoldable connection : Text → Error
connection message = new_error code_connection message

-- `ConnectionWrap`
unfoldable connection_wrap : Text → Error → Error
connection_wrap message cause = wrap code_connection message (some cause)

unfoldable timeout : Text → Error
timeout message = new_error code_timeout message

-- `TimeoutWrap`
unfoldable timeout_wrap : Text → Error → Error
timeout_wrap message cause = wrap code_timeout message (some cause)

unfoldable rate_limited : Text → Error
rate_limited message = new_error code_rate_limited message

unfoldable serialization : Text → Error
serialization message = new_error code_serialization message

-- `SerializationWrap`
pub serialization_wrap : Text → Error → Error
serialization_wrap message cause = wrap code_serialization message (some cause)

unfoldable internal : Text → Error
internal message = new_error code_internal message

-- `InternalWrap`
unfoldable internal_wrap : Text → Error → Error
internal_wrap message cause = wrap code_internal message (some cause)

-- `IsError`
unfoldable is_error : Error → Bool
is_error e = elim (as_error e) [ some r ↦ true | none ↦ false ]

unfoldable pub is_not_found : Error → Bool
is_not_found e = is_code e code_not_found

unfoldable is_connection : Error → Bool
is_connection e = is_code e code_connection

is_timeout : Error → Bool
is_timeout e = is_code e code_timeout

unfoldable is_lock_failed : Error → Bool
is_lock_failed e = is_code e code_lock_failed

unfoldable is_lock_not_held : Error → Bool
is_lock_not_held e = is_code e code_lock_not_held

unfoldable is_rate_limited : Error → Bool
is_rate_limited e = is_code e code_rate_limited

is_serialization : Error → Bool
is_serialization e = is_code e code_serialization

-- An error of encoding/json is not a missing key.
pub serialization_wrap-found :
    (message : Text) (cause : Error) → is_not_found (serialization_wrap message cause) ≡ false
unfolding serialization_wrap is_not_found is_code as_error wrap text_eq
serialization_wrap-found message cause = refl
