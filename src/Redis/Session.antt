-- ===== src/Redis/Session.antt =====
-- redis/session.go: `SessionStore` over the server's commands.
pub mod Ids
pub mod Index
pub mod Made
pub mod Created
pub mod Plain
mod Tests
use txova_go_db.Prelude.{
  ℕ, ◌+◌, ◌/◌, ◌%◌, ◌++◌, Bool, true, false, ◌||◌, List, [], ◌∷◌, Option, none, some, Result, ok,
  err, map, ltb, if◌then◌else◌,
}
use txova_go_db.Prelude.Int.{ℤ, pos, ◌+ℤ◌, ◌-ℤ◌, ltb_ℤ, leb_ℤ}
use txova_go_db.Text.{Text, codes}
use txova_go_db.Redis.Errors.{Error, from_redis_error, error_text}
use txova_go_db.Redis.Errors.Kinds.{is_not_found, not_found, serialization_wrap}
use Error.{nil_reply, other}
use txova_go_db.Redis.Json.{Codec, serialized}
use txova_go_db.Redis.Server.{Fault, call}
use txova_go_db.Redis.Keyspace.{Delivery, exec, Keyspace}

-- Times are nanoseconds since the epoch; `payload` is the JSON text of `Data`.
pub record Session : Type 0 where
  pub id : Text
  pub user_id : Text
  pub device_id : Text
  pub device_info : Text
  pub ip_address : Text
  pub created_at : ℤ
  pub last_active : ℤ
  pub expires_at : ℤ
  pub payload : Text

pub record SessionStore : Type 0 where
  pub key_prefix : Text
  pub default_ttl : ℤ

-- `SessionStoreOption`; the logger is left out.
pub data SessionStoreOption : Type 0 where
  with_session_key_prefix : Text → SessionStoreOption
  with_session_default_ttl : ℤ → SessionStoreOption

abbrev apply_store_option : SessionStoreOption → SessionStore → SessionStore
apply_store_option (with_session_key_prefix prefix) st = record st { key_prefix = prefix }
apply_store_option (with_session_default_ttl ttl) st = record st { default_ttl = ttl }

abbrev apply_store_options : List SessionStoreOption → SessionStore → SessionStore
apply_store_options [] st = st
apply_store_options (opt ∷ opts) st = apply_store_options opts (apply_store_option opt st)

unfoldable pub new_session_store : List SessionStoreOption → SessionStore
new_session_store opts =
    apply_store_options opts
      (record { key_prefix = codes "session"; default_ttl = pos 2592000000000000 })

pub session_key : SessionStore → Text → Text
session_key st session_id = st.key_prefix ++ (codes ":" ++ session_id)

pub user_sessions_key : SessionStore → Text → Text
user_sessions_key st user_id = st.key_prefix ++ (codes ":user:sessions:" ++ user_id)

-- `hex.EncodeToString` of bytes.
abbrev pub hex_digit : ℕ → ℕ
hex_digit n = if ltb n 10 then b'0' + n else 87 + n

pub hex : List ℕ → Text
hex [] = []
hex (b ∷ bytes) = hex_digit (b / 16) ∷ hex_digit (b % 16) ∷ hex bytes

-- The argument is what the random source gives for 32 bytes.
pub generate_session_id : Result Error (List ℕ) → Result Error Text
unfolding hex
generate_session_id (ok bytes) = ok (hex bytes)
generate_session_id (err e) =
    err (other (codes "failed to generate secure session ID: " ++ error_text e))

pub data SessionCreateOption : Type 0 where
  with_device_id with_device_info with_ip_address with_session_data : Text → SessionCreateOption

abbrev apply_option : SessionCreateOption → Session → Session
apply_option (with_device_id text) session = record session { device_id = text }
apply_option (with_device_info text) session = record session { device_info = text }
apply_option (with_ip_address text) session = record session { ip_address = text }
apply_option (with_session_data text) session = record session { payload = text }

pub apply_options : List SessionCreateOption → Session → Session
apply_options [] session = session
apply_options (opt ∷ opts) session = apply_options opts (apply_option opt session)

abbrev pub new_session : Text → Text → ℤ → ℤ → Session
new_session session_id user_id now ttl = record {
  id = session_id;
  user_id = user_id;
  device_id = [];
  device_info = [];
  ip_address = [];
  created_at = now;
  last_active = now;
  expires_at = now +ℤ ttl;
  payload = [];
}

-- The time to live of the index: the longer one of its own and the session's.
pub index_ttl : ℤ → ℤ → ℤ
index_ttl ttl current =
    if ltb_ℤ (pos 0) current then (if ltb_ℤ ttl current then current else ttl) else ttl

abbrev pub pipeline_result {ℓ} : {A : Type ℓ} → Option Error → A → Result Error A
pipeline_result none a = ok a
pipeline_result (some e) a = err (from_redis_error e)

abbrev pub command_error {ℓ} : {A : Type ℓ} → Result Error A → Option Error
command_error (ok a) = none
command_error (err e) = some (from_redis_error e)

module _ (server : Keyspace) (codec : Codec Session) where
  open server use {Store, nil_text}
  open codec use {marshal, unmarshal}

  pub create_commands : SessionStore → Session → Text → Text → ℤ → ℤ → List (Store → Store)
  create_commands st session user_id text ttl current =
      server.set (session_key st session.id) text ttl
      ∷ server.sadd (user_sessions_key st user_id) session.id
      ∷ (λ s. (server.expire (user_sessions_key st user_id) (index_ttl ttl current) s).1)
      ∷ []

  -- The end of CreateWithTTL, by the encoded session and the time to live of the index.
  pub create_encoded :
      SessionStore
      → Delivery
      → Session
      → Text
      → ℤ
      → Result Error Text
      → Result Error ℤ
      → Store
      → Result Error Session × Store
  unfolding create_commands
  create_encoded st delivery session user_id ttl (err e) current s =
      (err (serialization_wrap (codes "failed to marshal session") e), s)
  create_encoded st delivery session user_id ttl (ok text) (err e) s = (err (from_redis_error e), s)
  create_encoded st delivery session user_id ttl (ok text) (ok current) s =
      let (e, s') = exec delivery (create_commands st session user_id text ttl current) s in
      (pipeline_result e session, s')

  pub create_with_id :
      SessionStore
      → Fault
      → Delivery
      → ℤ
      → Text
      → ℤ
      → List SessionCreateOption
      → Result Error Text
      → Store
      → Result Error Session × Store
  unfolding create_encoded apply_options
  create_with_id st fault delivery now user_id ttl opts (err e) s = (err e, s)
  create_with_id st fault delivery now user_id ttl opts (ok session_id) s =
      let session = apply_options opts (new_session session_id user_id now ttl) in
      let current = (call fault (λ x. (server.ttl (user_sessions_key st user_id) x, x)) s).0 in
      create_encoded st delivery session user_id ttl (marshal session) current s

  -- The random bytes, the connection for TTL and for the pipeline, and the clock.
  pub create_with_ttl :
      SessionStore
      → Result Error (List ℕ)
      → Fault
      → Delivery
      → ℤ
      → Text
      → ℤ
      → List SessionCreateOption
      → Store
      → Result Error Session × Store
  unfolding create_with_id
  create_with_ttl st random fault delivery now user_id ttl opts s =
      if leb_ℤ ttl (pos 0)
      then (err (other (codes "invalid TTL: must be greater than zero")), s)
      else create_with_id st fault delivery now user_id ttl opts (generate_session_id random) s

  unfoldable create :
      SessionStore
      → Result Error (List ℕ)
      → Fault
      → Delivery
      → ℤ
      → Text
      → List SessionCreateOption
      → Store
      → Result Error Session × Store
  create st random fault delivery now user_id opts s =
      create_with_ttl st random fault delivery now user_id st.default_ttl opts s

  pub get_error : Error → Error
  get_error e =
      if is_not_found (from_redis_error e)
      then not_found (codes "session not found")
      else from_redis_error e

  -- The session of a reply.
  pub read_reply : Result Error (Option Text) → Result Error Session
  unfolding get_error
  read_reply (err e) = err (get_error e)
  read_reply (ok none) = err (get_error (nil_reply nil_text))
  read_reply (ok (some text)) = serialized (codes "failed to unmarshal session") (unmarshal text)

  -- GetWithTouch without the touch.
  pub read_session : SessionStore → Fault → Text → Store → Result Error Session
  unfolding read_reply
  read_session st fault session_id s =
      read_reply (call fault (λ x. (server.get (session_key st session_id) x, x)) s).0

  -- The rest of update, which encodes the session before it sets the end of one that has expired:
  -- the error and the session.
  pub update_encoded :
      SessionStore
      → Fault
      → ℤ
      → ℤ
      → Session
      → Result Error Text
      → Store
      → (Option Error × Session) × Store
  update_encoded st fault until now session (err e) s =
      ((some (serialization_wrap (codes "failed to marshal session") e), session), s)
  update_encoded st fault until now session (ok text) s =
      let left = session.expires_at -ℤ until in
      let is_over = leb_ℤ left (pos 0) in
      let ttl = if is_over then st.default_ttl else left in
      let session' = if is_over then record session { expires_at = now +ℤ ttl } else session in
      let (reply, s') =
        call fault (λ x. (tt, server.set (session_key st session.id) text ttl x)) s in
      ((command_error reply, session'), s')

  -- The clock is read twice: for what is left, and for the new end.
  pub update_session :
      SessionStore → Fault → ℤ → ℤ → Session → Store → (Option Error × Session) × Store
  unfolding update_encoded
  update_session st fault until now session s =
      update_encoded st fault until now session (marshal session) s

  -- `Update`
  pub update_touched :
      SessionStore → Fault → (ℕ → ℤ) → Session → Store → (Option Error × Session) × Store
  unfolding update_session
  update_touched st fault clock session s =
      update_session st fault (clock 1) (clock 2) (record session { last_active = clock 0 }) s

  -- The error of the update is dropped, and the session that it leaves is the answer.
  pub touch_read :
      SessionStore
      → Fault
      → Bool
      → (ℕ → ℤ)
      → Result Error Session
      → Store
      → Result Error Session × Store
  unfolding update_touched
  touch_read st fault touch clock (err e) s = (err e, s)
  touch_read st fault false clock (ok session) s = (ok session, s)
  touch_read st fault true clock (ok session) s =
      let ((e, session'), s') = update_touched st fault clock session s in (ok session', s')

  pub get_with_touch :
      SessionStore → Fault → Fault → Bool → (ℕ → ℤ) → Text → Store → Result Error Session × Store
  unfolding touch_read read_session
  get_with_touch st fault_get fault_set touch clock session_id s =
      touch_read st fault_set touch clock (read_session st fault_get session_id s) s

  -- `Get`
  pub get : SessionStore → Fault → Fault → (ℕ → ℤ) → Text → Store → Result Error Session × Store
  unfolding get_with_touch
  get st fault_get fault_set clock session_id s =
      get_with_touch st fault_get fault_set true clock session_id s
