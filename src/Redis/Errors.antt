-- ===== src/Redis/Errors.antt =====
-- redis/errors.go: codes, errors with their causes, and the classification of go-redis errors by
-- their text.
pub mod Contains
pub mod Classify
pub mod Kinds
mod Tests
use txova_go_db.Prelude.{
  ℕ, zero, suc, ◌+◌, ◌-◌, Bool, true, false, ◌&&◌, ◌||◌, List, [], ◌∷◌, ◌++◌, Option, none, some,
  length, ltb, leb, if◌then◌else◌,
}
use txova_go_db.Text.{Text, codes, text_eq}

-- `Code` is a string.
abbrev pub Code : Type 0
Code = Text

abbrev pub code_not_found : Code
code_not_found = codes "REDIS_NOT_FOUND"

abbrev pub code_connection : Code
code_connection = codes "REDIS_CONNECTION"

abbrev pub code_timeout : Code
code_timeout = codes "REDIS_TIMEOUT"

abbrev pub code_lock_failed : Code
code_lock_failed = codes "REDIS_LOCK_FAILED"

abbrev pub code_lock_not_held : Code
code_lock_not_held = codes "REDIS_LOCK_NOT_HELD"

abbrev pub code_rate_limited : Code
code_rate_limited = codes "REDIS_RATE_LIMITED"

abbrev pub code_serialization : Code
code_serialization = codes "REDIS_SERIALIZATION"

abbrev pub code_internal : Code
code_internal = codes "REDIS_INTERNAL"

-- The codes of the package coreerrors that the mapping names.
pub data CoreCode : Type 0 where
  not_found conflict rate_limited validation_error service_unavailable internal_error : CoreCode

-- `CoreCode` of a code: the entry of `coreCodeMapping`, or the internal error.
unfoldable pub core_code : Code → CoreCode
core_code c =
    if text_eq c code_not_found
    then not_found
    else if text_eq c code_connection
    then service_unavailable
    else if text_eq c code_timeout
    then service_unavailable
    else if text_eq c code_lock_failed
    then conflict
    else if text_eq c code_lock_not_held
    then conflict
    else if text_eq c code_rate_limited
    then rate_limited
    else if text_eq c code_serialization
    then validation_error
    else internal_error

-- The fields of `Error`, with the code and the message of the core error that it embeds.
pub record RedisError : Type 0 where
  pub core : CoreCode
  pub message : Text
  pub code : Code

-- An error and the chain of its causes: an `*Error` without or with a cause; `redis.Nil`,
-- `redis.ErrClosed` and any other error without or with a cause, each with its text.
pub data Error : Type 0 where
  redis : RedisError → Error
  redis_cause : RedisError → Error → Error
  nil_reply closed other : Text → Error
  other_cause : Text → Error → Error

plain_fields : Code → Text → RedisError
plain_fields code message = record { core = core_code code; message = message; code = code }

-- `NewError`
unfoldable pub new_error : Code → Text → Error
unfolding plain_fields core_code text_eq
new_error code message = redis (plain_fields code message)

-- `Wrap`; a nil cause is no cause.
unfoldable pub wrap : Code → Text → Option Error → Error
unfolding plain_fields core_code text_eq
wrap code message none = redis (plain_fields code message)
wrap code message (some cause) = redis_cause (plain_fields code message) cause

-- `Error()`
unfoldable pub error_text : Error → Text
error_text (redis e) = e.code ++ (codes ": " ++ e.message)
error_text (redis_cause e cause) =
    e.code ++ (codes ": " ++ (e.message ++ (codes ": " ++ error_text cause)))
error_text (nil_reply text) = text
error_text (closed text) = text
error_text (other text) = text
error_text (other_cause text cause) = text

-- `errors.Is(err, redis.Nil)`
unfoldable pub is_nil : Error → Bool
is_nil (nil_reply text) = true
is_nil (redis_cause e cause) = is_nil cause
is_nil (other_cause text cause) = is_nil cause
is_nil _ = false

-- `errors.Is(err, redis.ErrClosed)`
unfoldable pub is_closed : Error → Bool
is_closed (closed text) = true
is_closed (redis_cause e cause) = is_closed cause
is_closed (other_cause text cause) = is_closed cause
is_closed _ = false

-- `errors.As` with a `*Error`: the first one of the chain.
unfoldable pub as_error : Error → Option RedisError
as_error (redis e) = some e
as_error (redis_cause e cause) = some e
as_error (other_cause text cause) = as_error cause
as_error _ = none

pub lower_byte : ℕ → ℕ
lower_byte c = if leb b'A' c && leb c b'Z' then c + 32 else c

-- `toLower`
pub to_lower : Text → Text
unfolding lower_byte
to_lower [] = []
to_lower (c ∷ s) = lower_byte c ∷ to_lower s

-- `s[:n]` and `s[1:]`; past the end nothing is left.
pub take : ℕ → Text → Text
take zero s = []
take (suc n) [] = []
take (suc n) (c ∷ s) = c ∷ take n s

pub tail : Text → Text
tail [] = []
tail (c ∷ s) = s

-- The loop over the positions: `s` is what is left from the position on.
pub contains_loop : ℕ → Text → Text → Bool
unfolding take tail
contains_loop zero s substr = false
contains_loop (suc rounds) s substr =
    let rest = contains_loop rounds (tail s) substr in
    if text_eq (take (length substr) s) substr then true else rest

-- `contains`
pub contains : Text → Text → Bool
unfolding contains_loop
contains s substr =
    if ltb (length s) (length substr)
    then false
    else contains_loop (length s - length substr + 1) s substr

-- `containsIgnoreCase`
pub contains_ignore_case : Text → Text → Bool
unfolding to_lower contains
contains_ignore_case s substr = contains (to_lower s) (to_lower substr)

-- The loop over the patterns.
pub matches_any : Text → List Text → Bool
matches_any msg [] = false
matches_any msg (pattern ∷ rest) =
    let later = matches_any msg rest in if contains_ignore_case msg pattern then true else later

abbrev pub connection_patterns : List Text
connection_patterns =
    codes "connection refused"
    ∷ codes "connection reset"
    ∷ codes "no connection"
    ∷ codes "connect:"
    ∷ codes "dial tcp"
    ∷ codes "EOF"
    ∷ codes "broken pipe"
    ∷ []

abbrev pub timeout_patterns : List Text
timeout_patterns =
    codes "timeout"
    ∷ codes "deadline exceeded"
    ∷ codes "context deadline"
    ∷ codes "i/o timeout"
    ∷ []

-- `isConnectionError`
pub is_connection_error : Text → Bool
unfolding matches_any
is_connection_error msg = matches_any msg connection_patterns

-- `isTimeoutError`
pub is_timeout_error : Text → Bool
unfolding matches_any
is_timeout_error msg = matches_any msg timeout_patterns

-- `FromRedisError` of an error that is not nil.
pub from_redis_error : Error → Error
from_redis_error e =
    if is_nil e
    then new_error code_not_found (codes "key not found")
    else if is_closed e
    then wrap code_connection (codes "connection closed") (some e)
    else if is_connection_error (error_text e)
    then wrap code_connection (codes "Redis connection error") (some e)
    else if is_timeout_error (error_text e)
    then wrap code_timeout (codes "Redis operation timeout") (some e)
    else wrap code_internal (codes "Redis operation failed") (some e)

pub get_code : Error → Code
get_code e = elim (as_error e) [ some r ↦ r.code | none ↦ code_internal ]

unfoldable pub is_code : Error → Code → Bool
is_code e code = elim (as_error e) [ some r ↦ text_eq r.code code | none ↦ false ]
