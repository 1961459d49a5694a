-- ===== src/Redis/Session/Tests.antt =====
-- The theorems on sessions that are created at a server whose keys are functions.
use txova_go_db.Prelude.{
  ℕ, ◌*◌, ◌≡◌, ◌≢◌, refl, true, false, List, [], ◌∷◌, none, Result, ok, arith,
}
use txova_go_db.Prelude.Int.{pos, negsuc, ◌+ℤ◌, ◌≤ℤ◌}
use txova_go_db.Text.{codes, text_eq}
use txova_go_db.Text.Members.{mem}
use txova_go_db.Redis.Errors.{Error}
use txova_go_db.Redis.Server.{delivered}
use txova_go_db.Redis.Keyspace.{whole, cut}
use txova_go_db.Redis.Keyspace.Mapped.{Keys, mapped, mapped-KeyLaws}
use txova_go_db.Redis.Session.{
  Session, SessionStore, session_key, user_sessions_key, hex, generate_session_id, apply_options,
  create_commands, create_encoded, create_with_id, create_with_ttl, get_with_touch,
}
use txova_go_db.Redis.Session.Plain.{plain, plain-CodecLaws}
use txova_go_db.Redis.Session.Created.{
  create_with_ttl-get_with_touch, create_with_ttl-indexed, create_with_ttl-shortens,
}
use txova_go_db.Redis.Session.Made.{Outlasts}

abbrev sessions : SessionStore
sessions = record { key_prefix = codes "session"; default_ttl = pos 2592000000000000 }

abbrev nothing : Keys
nothing = record { strings = λ k. none; sets = λ k. []; seconds = λ k. 0 }

abbrev bytes : List ℕ
bytes = 1 ∷ 171 ∷ []

abbrev session : Session
session = record {
  id = codes "01ab";
  user_id = codes "u";
  device_id = [];
  device_info = [];
  ip_address = [];
  created_at = pos 5;
  last_active = pos 5;
  expires_at = pos 60000000005;
  payload = [];
}

abbrev created : Result Error Session × Keys
created =
    create_with_ttl mapped plain sessions (ok bytes) delivered whole (pos 5) (codes "u")
      (pos (60 * 1000000000)) [] nothing

created_run : created.0 ≡ ok session
unfolding create_with_ttl create_with_id create_encoded create_commands generate_session_id hex
    apply_options ◌+ℤ◌
created_run = refl

id_run : generate_session_id (ok bytes) ≡ ok (codes "01ab")
unfolding generate_session_id hex
id_run = refl

create_with_ttl-get_with_touch_example :
    get_with_touch mapped plain sessions delivered delivered false
      (λ i. pos 7)
      (codes "01ab")
      created.1
    ≡ (ok session, created.1)
create_with_ttl-get_with_touch_example =
    create_with_ttl-get_with_touch mapped plain mapped-KeyLaws plain-CodecLaws sessions (ok bytes)
      delivered whole (pos 5) (codes "u") (pos (60 * 1000000000)) [] nothing delivered (λ i. pos 7)
      created_run

no_index : mapped.ttl (user_sessions_key sessions (codes "u")) nothing ≢ negsuc 0
no_index e = cc

create_with_ttl-indexed_example :
    (mem (codes "01ab") (mapped.smembers (user_sessions_key sessions (codes "u")) created.1) ≡ true)
    × (pos (60 * 1000000000) ≤ℤ mapped.ttl (user_sessions_key sessions (codes "u")) created.1)
    × Outlasts
        (mapped.ttl (user_sessions_key sessions (codes "u")) created.1)
        (mapped.ttl (user_sessions_key sessions (codes "u")) nothing)
create_with_ttl-indexed_example =
    create_with_ttl-indexed mapped plain mapped-KeyLaws sessions bytes delivered whole (pos 5)
      (codes "u") 60 [] nothing (omega arith) refl created_run no_index

-- The index that a pipeline leaves when it is cut behind SADD: it has an id, and does not expire.
abbrev left_behind : Keys
left_behind =
    (create_with_ttl mapped plain sessions (ok (2 ∷ [])) delivered
      (cut 2 (Error.other (codes "EOF"))) (pos 3) (codes "u") (pos (90 * 1000000000)) [] nothing).1

never : mapped.ttl (user_sessions_key sessions (codes "u")) left_behind ≡ negsuc 0
unfolding create_with_ttl create_with_id create_encoded create_commands generate_session_id hex
    apply_options user_sessions_key session_key text_eq mem
never = refl

abbrev created_behind : Result Error Session × Keys
created_behind =
    create_with_ttl mapped plain sessions (ok bytes) delivered whole (pos 5) (codes "u")
      (pos (60 * 1000000000)) [] left_behind

created_behind_run : created_behind.0 ≡ ok session
unfolding create_with_ttl create_with_id create_encoded create_commands generate_session_id hex
    apply_options ◌+ℤ◌
created_behind_run = refl

no_string : mapped.get (user_sessions_key sessions (codes "u")) left_behind ≡ none
unfolding create_with_ttl create_with_id create_encoded create_commands generate_session_id hex
    apply_options user_sessions_key session_key text_eq
no_string = refl

create_with_ttl-shortens_example :
    (mapped.ttl (user_sessions_key sessions (codes "u")) created_behind.1 ≡ pos (60 * 1000000000))
    × (¬ Outlasts
        (mapped.ttl (user_sessions_key sessions (codes "u")) created_behind.1)
        (mapped.ttl (user_sessions_key sessions (codes "u")) left_behind))
create_with_ttl-shortens_example =
    create_with_ttl-shortens mapped plain mapped-KeyLaws sessions bytes delivered whole (pos 5)
      (codes "u") 60 [] left_behind (omega arith) no_string created_behind_run never
