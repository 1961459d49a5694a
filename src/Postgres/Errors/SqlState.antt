-- ===== src/Postgres/Errors/SqlState.antt =====
-- What `mapSQLState` makes of a SQLSTATE.
use txova_go_db.Prelude.{
  ◌≡◌, ◌≢◌, refl, ap, ◌↔◌, ◌⊎◌, inl, inr, Bool, true, false, ◌||◌, ◌++◌, List, [], ◌∷◌, Bool-cases,
  All,
}
use txova_go_db.Text.{Text, codes, text_eq}
use txova_go_db.Text.Equality.{text_eq_iff, text_eq-ne}
use txova_go_db.Postgres.Errors.{
  Code, code_duplicate, code_foreign_key, code_check_violation, code_invalid_input, code_timeout,
  code_connection, code_serialization, code_deadlock, code_internal, class_code, map_sql_state,
}

abbrev pub specific_states : List Text
specific_states =
    codes "23505"
    ∷ codes "23503"
    ∷ codes "23514"
    ∷ codes "23502"
    ∷ codes "40001"
    ∷ codes "40P01"
    ∷ codes "57014"
    ∷ []

-- None of the seven specific codes, and not of class 08.
pub record IsUnlisted (s : Text) : Type 0 where
  pub specific : All (λ t. s ≢ t) specific_states
  pub class : (rest : Text) → s ≢ codes "08" ++ rest

-- A SQLSTATE and the code that it stands for, as the PostgreSQL manual names them.
pub data Classified (s : Text) (c : Code) : Type 0 where
  unique_violation : s ≡ codes "23505" → c ≡ code_duplicate → Classified s c
  foreign_key_violation : s ≡ codes "23503" → c ≡ code_foreign_key → Classified s c
  check_violation : s ≡ codes "23514" → c ≡ code_check_violation → Classified s c
  not_null_violation : s ≡ codes "23502" → c ≡ code_invalid_input → Classified s c
  serialization_failure : s ≡ codes "40001" → c ≡ code_serialization → Classified s c
  deadlock_detected : s ≡ codes "40P01" → c ≡ code_deadlock → Classified s c
  query_canceled : s ≡ codes "57014" → c ≡ code_timeout → Classified s c
  connection_exception :
      (rest : Text) → s ≡ codes "08" ++ rest → c ≡ code_connection → Classified s c
  unlisted : IsUnlisted s → c ≡ code_internal → Classified s c

class-Classified : (s : Text) → All (λ t. s ≢ t) specific_states → Classified s (class_code s)
unfolding class_code
class-Classified [] h = unlisted (record { specific = h; class = λ rest e. cc }) refl
class-Classified (a ∷ []) h = unlisted (record { specific = h; class = λ rest e. cc }) refl
class-Classified (a ∷ b ∷ s) h = elim (Bool-cases (text_eq (a ∷ b ∷ []) (codes "08"))) [
  | inl e ↦
      connection_exception s (ap (λ t. t ++ s) ((text_eq_iff (a ∷ b ∷ []) (codes "08")).0 e)) (rw e)
  | inr e ↦
      unlisted
        (record {
          specific = h;
          class = λ rest p.
              let q : (a ∷ b ∷ []) ≡ codes "08" = cc in
              let t = (text_eq_iff (a ∷ b ∷ []) (codes "08")).1 q in cc;
        })
        (rw e)
]

no_specific :
    (s : Text)
    → text_eq s (codes "23505") ≡ false
    → text_eq s (codes "23503") ≡ false
    → text_eq s (codes "23514") ≡ false
    → text_eq s (codes "23502") ≡ false
    → text_eq s (codes "40001") ≡ false
    → text_eq s (codes "40P01") ≡ false
    → text_eq s (codes "57014") ≡ false
    → All (λ t. s ≢ t) specific_states
no_specific s e1 e2 e3 e4 e5 e6 e7 =
    let ne = text_eq-ne s in
    (ne _ e1, (ne _ e2, (ne _ e3, (ne _ e4, (ne _ e5, (ne _ e6, (ne _ e7, tt)))))))

-- `mapSQLState` gives every SQLSTATE the code of its class: the seven specific codes, class 08, and
-- the internal error for what is neither.
pub map_sql_state-Classified : (s : Text) → Classified s (map_sql_state s)
unfolding map_sql_state
map_sql_state-Classified s = elim (Bool-cases (text_eq s (codes "23505"))) [
  | inl e ↦ unique_violation ((text_eq_iff s (codes "23505")).0 e) (rw e)
  | inr e1 ↦ elim (Bool-cases (text_eq s (codes "23503"))) [
    | inl e ↦ foreign_key_violation ((text_eq_iff s (codes "23503")).0 e) (rw (e1, e))
    | inr e2 ↦ elim (Bool-cases (text_eq s (codes "23514"))) [
      | inl e ↦ check_violation ((text_eq_iff s (codes "23514")).0 e) (rw (e1, e2, e))
      | inr e3 ↦ elim (Bool-cases (text_eq s (codes "23502"))) [
        | inl e ↦ not_null_violation ((text_eq_iff s (codes "23502")).0 e) (rw (e1, e2, e3, e))
        | inr e4 ↦ elim (Bool-cases (text_eq s (codes "40001"))) [
          | inl e ↦
              serialization_failure ((text_eq_iff s (codes "40001")).0 e) (rw (e1, e2, e3, e4, e))
          | inr e5 ↦ elim (Bool-cases (text_eq s (codes "40P01"))) [
            | inl e ↦
                deadlock_detected ((text_eq_iff s (codes "40P01")).0 e) (rw (e1, e2, e3, e4, e5, e))
            | inr e6 ↦ elim (Bool-cases (text_eq s (codes "57014"))) [
              | inl e ↦
                  query_canceled ((text_eq_iff s (codes "57014")).0 e)
                    (rw (e1, e2, e3, e4, e5, e6, e))
              | inr e7 ↦
                  rw (e1, e2, e3, e4, e5, e6, e7)
                    (class-Classified s (no_specific s e1 e2 e3 e4 e5 e6 e7))
            ]
          ]
        ]
      ]
    ]
  ]
]

-- The two codes after which a transaction is tried again.
abbrev pub IsRetryState : Text → Type 0
IsRetryState s = (s ≡ codes "40001") ⊎ (s ≡ codes "40P01")

abbrev is_retry_code : Code → Bool
is_retry_code c = text_eq c code_serialization || text_eq c code_deadlock

Classified-retry : (s : Text) (c : Code) → Classified s c → is_retry_code c ≡ true → IsRetryState s
unfolding text_eq
Classified-retry s c (unique_violation _ e) h = let f = ap is_retry_code e in cc
Classified-retry s c (foreign_key_violation _ e) h = let f = ap is_retry_code e in cc
Classified-retry s c (check_violation _ e) h = let f = ap is_retry_code e in cc
Classified-retry s c (not_null_violation _ e) h = let f = ap is_retry_code e in cc
Classified-retry s c (serialization_failure p e) h = inl p
Classified-retry s c (deadlock_detected p e) h = inr p
Classified-retry s c (query_canceled _ e) h = let f = ap is_retry_code e in cc
Classified-retry s c (connection_exception _ _ e) h = let f = ap is_retry_code e in cc
Classified-retry s c (unlisted _ e) h = let f = ap is_retry_code e in cc

IsRetryState-map : (s : Text) → IsRetryState s → is_retry_code (map_sql_state s) ≡ true
unfolding map_sql_state text_eq
IsRetryState-map s (inl e) = rw e
IsRetryState-map s (inr e) = rw e

pub retry_code_iff :
    (s : Text)
    → ((text_eq (map_sql_state s) code_serialization || text_eq (map_sql_state s) code_deadlock)
        ≡ true)
      ↔ IsRetryState s
retry_code_iff s =
    (Classified-retry s (map_sql_state s) (map_sql_state-Classified s), IsRetryState-map s)
