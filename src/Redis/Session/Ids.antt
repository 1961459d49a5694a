-- ===== src/Redis/Session/Ids.antt =====
-- redis/session.go: the ids that `generateSessionID` makes, and the keys of sessions and indices.
use txova_go_db.Prelude.{
  ℕ, ◌*◌, ◌/◌, ◌%◌, ◌<◌, ◌≡◌, ◌≢◌, refl, List, [], ◌∷◌, ◌++◌, ok, All, length, subst, arith,
}
use txova_go_db.Text.{Text, codes, Lacks}
use txova_go_db.Text.Members.{append_cancel}
use txova_go_db.Redis.Session.{
  SessionStore, session_key, user_sessions_key, hex, hex_digit, generate_session_id,
}

abbrev pub IsByte : ℕ → Type 0
IsByte b = b < 256

hex_digit-ne : (n : ℕ) → n < 16 → hex_digit n ≢ b':'
hex_digit-ne n h = ground arith

hex-Lacks : (bytes : List ℕ) → All IsByte bytes → Lacks b':' (hex bytes)
unfolding hex
hex-Lacks [] h = tt
hex-Lacks (b ∷ bytes) (hb, h) =
    let low = hex_digit-ne (b % 16) (omega arith) in
    (hex_digit-ne (b / 16) (omega arith), (low, hex-Lacks bytes h))

length-hex : (bytes : List ℕ) → length (hex bytes) ≡ 2 * length bytes
unfolding hex
length-hex [] = omega arith
length-hex (b ∷ bytes) = omega (arith, length-hex bytes)

hex_digit_injective : (m n : ℕ) → m < 16 → n < 16 → hex_digit m ≡ hex_digit n → m ≡ n
hex_digit_injective m n hm hn e = ground arith

byte-parts : (b c : ℕ) → b / 16 ≡ c / 16 → b % 16 ≡ c % 16 → b ≡ c
byte-parts b c h g = omega arith

hex_injective :
    (bytes more : List ℕ) → All IsByte bytes → All IsByte more → hex bytes ≡ hex more → bytes ≡ more
unfolding hex
hex_injective [] [] hb hm e = refl
hex_injective [] (c ∷ more) hb hm e = cc
hex_injective (b ∷ bytes) [] hb hm e = cc
hex_injective (b ∷ bytes) (c ∷ more) (hb, hbs) (hc, hcs) e =
    let high = hex_digit_injective (b / 16) (c / 16) (omega arith) (omega arith) cc in
    let low = hex_digit_injective (b % 16) (c % 16) (omega arith) (omega arith) cc in
    let rest = hex_injective bytes more hbs hcs cc in let first = byte-parts b c high low in cc

-- Ids made of bytes are the same only for the same bytes, have two characters for each byte and
-- hold no colon.
pub generate_session_id_injective :
    (bytes more : List ℕ) {id : Text}
    → All IsByte bytes
    → All IsByte more
    → generate_session_id (ok bytes) ≡ ok id
    → generate_session_id (ok more) ≡ ok id
    → (bytes ≡ more) × (length id ≡ 2 * length bytes) × Lacks b':' id
unfolding generate_session_id
generate_session_id_injective bytes more {id} hb hm e f =
    let made : hex bytes ≡ id = cc in
    (
      hex_injective bytes more hb hm cc,
      subst (λ t. length t ≡ 2 * length bytes) made (length-hex bytes),
      subst (Lacks b':') made (hex-Lacks bytes hb),
    )

pub session_key_injective :
    (st : SessionStore) (i j : Text) → session_key st i ≡ session_key st j → i ≡ j
unfolding session_key
session_key_injective st i j e =
    let rest : codes ":" ++ i ≡ codes ":" ++ j = append_cancel st.key_prefix _ _ e in cc

-- The key of an id without a colon is not that of an index.
pub session_key-apart :
    (st : SessionStore) (id user_id : Text)
    → Lacks b':' id
    → session_key st id ≢ user_sessions_key st user_id
unfolding session_key user_sessions_key
session_key-apart st id user_id h e =
    let rest : codes ":" ++ id ≡ codes ":user:sessions:" ++ user_id =
      append_cancel st.key_prefix _ _ e in
    let same : id ≡ codes "user:sessions:" ++ user_id = cc in
    let (_, (_, (_, (_, (colon, _))))) = subst (Lacks b':') same h in colon refl
