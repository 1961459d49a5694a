-- ===== src/Redis/Session/Plain.antt =====
-- An encoding of sessions by the lengths of their texts, as an instance of the laws of encoding/json.
use txova_go_db.Prelude.{ℕ, zero, suc, ◌≡◌, refl, ap, [], ◌∷◌, ◌++◌, Result, ok, length, subst}
use txova_go_db.Prelude.Int.{ℤ, pos, negsuc}
use txova_go_db.Text.{Text}
use txova_go_db.Redis.Errors.{Error}
use txova_go_db.Redis.Json.{Codec, CodecLaws}
use txova_go_db.Redis.Session.{Session}

abbrev put_text : Text → Text → Text
put_text t rest = length t ∷ (t ++ rest)

abbrev put_int : ℤ → Text → Text
put_int (pos n) rest = 0 ∷ n ∷ rest
put_int (negsuc n) rest = 1 ∷ n ∷ rest

abbrev split : ℕ → Text → Text × Text
split zero s = ([], s)
split (suc n) [] = ([], [])
split (suc n) (c ∷ s) = let (t, rest) = split n s in (c ∷ t, rest)

abbrev take_text : Text → Text × Text
take_text [] = ([], [])
take_text (n ∷ s) = split n s

abbrev int_of : ℕ → ℕ → ℤ
int_of zero n = pos n
int_of (suc k) n = negsuc n

abbrev take_int : Text → ℤ × Text
take_int [] = (pos 0, [])
take_int (k ∷ []) = (pos 0, [])
take_int (k ∷ n ∷ s) = (int_of k n, s)

split-append : (t rest : Text) → split (length t) (t ++ rest) ≡ (t, rest)
split-append [] rest = refl
split-append (c ∷ t) rest = ap (λ p. (c ∷ p.0, p.1)) (split-append t rest)

take_int-put_int : (n : ℤ) (rest : Text) → take_int (put_int n rest) ≡ (n, rest)
take_int-put_int (pos n) rest = refl
take_int-put_int (negsuc n) rest = refl

abbrev pub encode : Session → Text
encode s = put_text s.id (
    put_text s.user_id (
      put_text s.device_id (
        put_text s.device_info (
          put_text s.ip_address (
            put_int s.created_at
              (put_int s.last_active (put_int s.expires_at (put_text s.payload []))))))))

abbrev decode : Text → Session
decode text =
    let (id, text) = take_text text in
    let (user_id, text) = take_text text in
    let (device_id, text) = take_text text in
    let (device_info, text) = take_text text in
    let (ip_address, text) = take_text text in
    let (created_at, text) = take_int text in
    let (last_active, text) = take_int text in
    let (expires_at, text) = take_int text in
    let (payload, text) = take_text text in
    record {
      id = id;
      user_id = user_id;
      device_id = device_id;
      device_info = device_info;
      ip_address = ip_address;
      created_at = created_at;
      last_active = last_active;
      expires_at = expires_at;
      payload = payload;
    }

decode-encode : (s : Session) → decode (encode s) ≡ s
decode-encode s =
    rw
      (
        split-append s.id _,
        split-append s.user_id _,
        split-append s.device_id _,
        split-append s.device_info _,
        split-append s.ip_address _,
        take_int-put_int s.created_at _,
        take_int-put_int s.last_active _,
        take_int-put_int s.expires_at _,
        split-append s.payload [],
      )
      refl

abbrev encoded : Session → Result Error Text
encoded s = ok (encode s)

abbrev pub plain : Codec Session
plain = record { marshal = encoded; unmarshal = λ text. ok (decode text) }

decodes-encoded : (s : Session) {text : Text} → encoded s ≡ ok text → decode text ≡ s
decodes-encoded s {text} e =
    let same : encode s ≡ text = cc in subst (λ t. decode t ≡ s) same (decode-encode s)

pub plain-CodecLaws : CodecLaws plain
plain-CodecLaws = record { decodes = λ s e. ap ok (decodes-encoded s e); nonempty = λ s e. cc }
