-- ===== src/Redis/Errors/Classify.antt =====
-- The code that `FromRedisError` gives an error.
use txova_go_db.Prelude.{◌≡◌, refl, inl, inr, true, false, List, [], ◌∷◌, ◌++◌, Bool-cases, arith}
use txova_go_db.Text.{Text, text_eq}
use txova_go_db.Redis.Errors.{
  Error, Code, to_lower, contains_ignore_case, matches_any, connection_patterns, timeout_patterns,
  is_connection_error, is_timeout_error, is_nil, is_closed, error_text, as_error, wrap, new_error,
  from_redis_error, get_code, code_not_found, code_connection, code_timeout, code_internal,
  code_lock_failed, is_code,
}
use txova_go_db.Redis.Errors.Contains.{contains_ignore_case_iff}

-- A part of the text equals one of the patterns up to the case of its letters.
pub data Mentions (msg : Text) : List Text → Type 0 where
  here :
      {pattern : Text} {rest : List Text} (p m q : Text)
      → msg ≡ p ++ (m ++ q)
      → to_lower m ≡ to_lower pattern
      → Mentions msg (pattern ∷ rest)
  later : {pattern : Text} {rest : List Text} → Mentions msg rest → Mentions msg (pattern ∷ rest)

matches_any-Mentions : (msg : Text) (ps : List Text) → matches_any msg ps ≡ true → Mentions msg ps
unfolding matches_any
matches_any-Mentions msg [] h = cc
matches_any-Mentions msg (pattern ∷ rest) h = elim (Bool-cases (contains_ignore_case msg pattern)) [
  | inl e ↦ let (p, m, q, es, em) = (contains_ignore_case_iff msg pattern).0 e in here p m q es em
  | inr e ↦ later (matches_any-Mentions msg rest (rw e at h))
]

Mentions-matches_any : (msg : Text) (ps : List Text) → Mentions msg ps → matches_any msg ps ≡ true
unfolding matches_any
Mentions-matches_any msg [] m = elim m [ ]
Mentions-matches_any msg (pattern ∷ rest) (here p m q es em) =
    rw ((contains_ignore_case_iff msg pattern).1 (p, m, q, es, em)) refl
Mentions-matches_any msg (pattern ∷ rest) (later a) =
    rw (Mentions-matches_any msg rest a) (ground arith)

matches_any-false : (msg : Text) (ps : List Text) → matches_any msg ps ≡ false → Mentions msg ps → ⊥
matches_any-false msg ps h a = let t = Mentions-matches_any msg ps a in cc

-- An error and the code that it gets: the order of the cases is that of the checks.
pub data Classified (e : Error) (c : Code) : Type 0 where
  missing_key : is_nil e ≡ true → c ≡ code_not_found → Classified e c
  closed_client : is_nil e ≡ false → is_closed e ≡ true → c ≡ code_connection → Classified e c
  connection :
      is_nil e ≡ false
      → is_closed e ≡ false
      → Mentions (error_text e) connection_patterns
      → c ≡ code_connection
      → Classified e c
  timeout :
      is_nil e ≡ false
      → is_closed e ≡ false
      → (Mentions (error_text e) connection_patterns → ⊥)
      → Mentions (error_text e) timeout_patterns
      → c ≡ code_timeout
      → Classified e c
  unknown :
      is_nil e ≡ false
      → is_closed e ≡ false
      → (Mentions (error_text e) connection_patterns → ⊥)
      → (Mentions (error_text e) timeout_patterns → ⊥)
      → c ≡ code_internal
      → Classified e c

-- `FromRedisError` gives every error a code: not found if its chain holds `redis.Nil`, else
-- connection if it holds `redis.ErrClosed`, else connection or timeout if its text mentions one of
-- the patterns in any case, connection first, else internal.
pub from_redis_error-Classified : (e : Error) → Classified e (get_code (from_redis_error e))
unfolding from_redis_error is_connection_error is_timeout_error get_code as_error new_error wrap
from_redis_error-Classified e = elim (Bool-cases (is_nil e)) [
  | inl n ↦ rw n (missing_key n refl)
  | inr n ↦ elim (Bool-cases (is_closed e)) [
    | inl k ↦ rw (n, k) (closed_client n k refl)
    | inr k ↦ elim (Bool-cases (matches_any (error_text e) connection_patterns)) [
      | inl m ↦ rw (n, k, m) (connection n k (matches_any-Mentions _ _ m) refl)
      | inr m ↦
          let quiet = matches_any-false (error_text e) connection_patterns m in
          elim (Bool-cases (matches_any (error_text e) timeout_patterns)) [
            | inl t ↦ rw (n, k, m, t) (timeout n k quiet (matches_any-Mentions _ _ t) refl)
            | inr t ↦
                rw (n, k, m, t)
                  (unknown n k quiet (matches_any-false (error_text e) timeout_patterns t) refl)
          ]
    ]
  ]
]

-- No error of go-redis looks like a lock that is held.
pub from_redis_error-lock_failed :
    (e : Error) → is_code (from_redis_error e) code_lock_failed ≡ false
unfolding from_redis_error is_code as_error new_error wrap text_eq
from_redis_error-lock_failed e = ground arith

pub from_redis_error-nil :
    (text : Text) → is_code (from_redis_error (Error.nil_reply text)) code_not_found ≡ true
unfolding from_redis_error is_nil is_code as_error new_error text_eq
from_redis_error-nil text = refl
