-- ===== src/Redis/Json.antt =====
-- encoding/json, which the cache and the sessions call and the repository does not hold.
use txova_go_db.Prelude.{◌≡◌, [], Result, ok, err}
use txova_go_db.Text.{Text}
use txova_go_db.Redis.Errors.{Error}
use txova_go_db.Redis.Errors.Kinds.{serialization_wrap}

-- `json.Marshal` and `json.Unmarshal` of the values of a type, into a fresh one.
pub record Codec (Value : Type 0) : Type 0 where
  pub marshal : Value → Result Error Text
  pub unmarshal : Text → Result Error Value

-- What is encoded is a value that decodes to it, and its text is not empty.
pub record CodecLaws {Value : Type 0} (codec : Codec Value) : Type 0 where
  pub decodes : (v : Value) {text : Text} → codec.marshal v ≡ ok text → codec.unmarshal text ≡ ok v
  pub nonempty : (v : Value) → codec.marshal v ≡ ok [] → ⊥

-- An error of encoding/json with a message.
abbrev pub serialized {ℓ} : {A : Type ℓ} → Text → Result Error A → Result Error A
serialized message (ok v) = ok v
serialized message (err e) = err (serialization_wrap message e)
