-- ===== src/Redis/Session/Index/Tests.antt =====
-- The theorems on the index of a user's sessions at a server whose keys are functions.
use txova_go_db.Prelude.{
  ◌+◌, ◌*◌, ◌≡◌, ◌≢◌, ◌⊎◌, inl, inr, refl, true, false, List, [], ◌∷◌, Option, none, some, ok, err,
  length, if◌then◌else◌, arith, sym, subst, All,
}
use txova_go_db.Prelude.Int.{pos, negsuc, ◌+ℤ◌, ◌-ℤ◌, ◌≤ℤ◌, leb_ℤ}
use txova_go_db.Text.{Text, codes, text_eq}
use txova_go_db.Text.Members.{mem}
use txova_go_db.Redis.Errors.Kinds.{not_found}
use txova_go_db.Redis.Server.{delivered}
use txova_go_db.Redis.Keyspace.{whole}
use txova_go_db.Redis.Keyspace.Mapped.{Keys, mapped, mapped-KeyLaws}
use txova_go_db.Redis.Session.{
  Session, SessionStore, session_key, user_sessions_key, read_session, update_touched,
  update_session, update_encoded,
}
use txova_go_db.Redis.Session.Plain.{plain, plain-CodecLaws, encode}
use txova_go_db.Redis.Session.Made.{Outlasts}
use txova_go_db.Redis.Session.Created.{read_stored}
use txova_go_db.Redis.Session.Index.{
  Stale, delete_read, delete, delete_by_user_id, list_by_user_id, count, extend, extend_read,
  extend_updated, extend_index,
}
use txova_go_db.Redis.Session.Index.Deleted.{delete-read_session}
use txova_go_db.Redis.Session.Index.Emptied.{delete_by_user_id-list_by_user_id}
use txova_go_db.Redis.Session.Index.Counted.{IsSession, count-list_by_user_id}
use txova_go_db.Redis.Session.Index.Extended.{extend-bounds}
use txova_go_db.Redis.Session.Index.Updated.{update_touched-read_session}

abbrev sessions : SessionStore
sessions = record { key_prefix = codes "session"; default_ttl = pos 2592000000000000 }

abbrev session : Session
session = record {
  id = codes "01ab";
  user_id = codes "u";
  device_id = [];
  device_info = [];
  ip_address = [];
  created_at = pos 5;
  last_active = pos 5;
  expires_at = pos 60000000005;
  payload = [];
}

-- A session, and an index with its id and that of a session that has expired.
abbrev string_at : Text → Option Text
string_at k = if text_eq k (codes "session:01ab") then some (encode session) else none

abbrev ids_at : Text → List Text
ids_at k =
    if text_eq k (codes "session:user:sessions:u") then codes "01ab" ∷ codes "02cd" ∷ [] else []

abbrev store : Keys
store = record { strings = string_at; sets = ids_at; seconds = λ k. 60 }

indexed : mem (codes "01ab") (mapped.smembers (user_sessions_key sessions (codes "u")) store) ≡ true
unfolding mem text_eq user_sessions_key
indexed = refl

two_ids :
    mapped.smembers (user_sessions_key sessions (codes "u")) store
    ≡ codes "01ab" ∷ codes "02cd" ∷ []
unfolding mem text_eq user_sessions_key
two_ids = refl

found : read_session mapped plain sessions delivered (codes "01ab") store ≡ ok session
unfolding text_eq session_key
found =
    read_stored mapped plain mapped-KeyLaws plain-CodecLaws sessions session (encode session)
      (codes "01ab") store refl refl

delete_by_user_id-list_by_user_id_example :
    (list_by_user_id mapped plain sessions delivered delivered
        (codes "u")
        (delete_by_user_id mapped plain sessions delivered delivered (codes "u") store).1
      ≡ ok ([], []))
    × (read_session mapped plain sessions delivered
          (codes "01ab")
          (delete_by_user_id mapped plain sessions delivered delivered (codes "u") store).1
        ≡ err (not_found (codes "session not found")))
delete_by_user_id-list_by_user_id_example =
    delete_by_user_id-list_by_user_id mapped plain mapped-KeyLaws sessions (codes "u")
      (codes "01ab") delivered store indexed

deleted : (delete mapped plain sessions delivered whole (codes "01ab") store).0 ≡ none
unfolding delete delete_read
deleted = rw found refl

no_strings : (u : Text) → mapped.get (user_sessions_key sessions u) store ≡ none
unfolding text_eq user_sessions_key
no_strings u = refl

delete-read_session_example :
    ((mapped.get (session_key sessions (codes "01ab")) store ≡ none)
      × ((delete mapped plain sessions delivered whole (codes "01ab") store).1 ≡ store))
    ⊎ ((s : Session) × (read_session mapped plain sessions delivered (codes "01ab") store ≡ ok s)
        × (mapped.get
              (session_key sessions (codes "01ab"))
              (delete mapped plain sessions delivered whole (codes "01ab") store).1
            ≡ none)
        × (mem (codes "01ab") (
              mapped.smembers
                (user_sessions_key sessions s.user_id)
                (delete mapped plain sessions delivered whole (codes "01ab") store).1)
            ≡ false))
delete-read_session_example =
    delete-read_session mapped plain mapped-KeyLaws sessions whole (codes "01ab") store no_strings
      deleted

stored_session : mapped.get (session_key sessions (codes "01ab")) store ≡ some (encode session)
unfolding text_eq session_key
stored_session = refl

missing : mapped.get (session_key sessions (codes "02cd")) store ≡ none
unfolding text_eq session_key
missing = refl

no_set : mapped.smembers (session_key sessions (codes "01ab")) store ≡ []
unfolding text_eq session_key
no_set = refl

no_set_either : mapped.smembers (session_key sessions (codes "02cd")) store ≡ []
unfolding text_eq session_key
no_set_either = refl

decoded : plain.unmarshal (encode session) ≡ ok session
decoded = refl

count-list_by_user_id_example :
    (list : List Session) × ((stale : Stale) × (list_by_user_id mapped plain sessions delivered
          delivered
          (codes "u")
          store
        ≡ ok (list, stale))
      × (count mapped plain sessions delivered delivered (codes "u") store
          ≡ ok (length list, stale)))
count-list_by_user_id_example =
    count-list_by_user_id mapped plain mapped-KeyLaws sessions store (codes "u") (
      subst (All (IsSession mapped plain mapped-KeyLaws sessions store)) (sym two_ids) (
        (no_set, inr (encode session, stored_session, (session, decoded))),
        ((no_set_either, inl missing), tt),
      ))

updated :
    (update_touched mapped plain sessions delivered (λ i. pos (70000000000 + i)) session store).0.0
    ≡ none
unfolding update_touched update_session update_encoded
updated = refl

update_touched-read_session_example :
    (read_session mapped plain sessions delivered
        (codes "01ab")
        (update_touched mapped plain sessions delivered
          (λ i. pos (70000000000 + i))
          session
          store).1
      ≡ ok (record session { last_active = pos (70000000000 + 0) }))
    × ((update_touched mapped plain sessions delivered
          (λ i. pos (70000000000 + i))
          session
          store).0.1.expires_at
        ≡ (if leb_ℤ (pos 60000000005 -ℤ pos (70000000000 + 1)) (pos 0)
            then pos (70000000000 + 2) +ℤ pos 2592000000000000
            else pos 60000000005))
update_touched-read_session_example =
    update_touched-read_session mapped plain mapped-KeyLaws plain-CodecLaws sessions delivered
      (λ i. pos (70000000000 + i)) session store updated

index_exists : mapped.exists (user_sessions_key sessions (codes "u")) store ≡ 1
unfolding text_eq user_sessions_key
index_exists = refl

extended :
    (extend mapped plain sessions
      (λ i. delivered)
      (λ i. pos (7 + i))
      (codes "01ab")
      (pos (90 * 1000000000))
      store).0
    ≡ none
unfolding extend extend_read extend_updated extend_index update_session update_encoded
    user_sessions_key session_key text_eq
extended = rw found refl

index_expires : mapped.ttl (user_sessions_key sessions (codes "u")) store ≢ negsuc 0
unfolding text_eq user_sessions_key
index_expires e = cc

extend-bounds_example :
    (pos (90 * 1000000000)
      ≤ℤ mapped.ttl
          (user_sessions_key sessions (codes "u"))
          (extend mapped plain sessions
            (λ i. delivered)
            (λ i. pos (7 + i))
            (codes "01ab")
            (pos (90 * 1000000000))
            store).1)
    × Outlasts
        (mapped.ttl
          (user_sessions_key sessions (codes "u"))
          (extend mapped plain sessions
            (λ i. delivered)
            (λ i. pos (7 + i))
            (codes "01ab")
            (pos (90 * 1000000000))
            store).1)
        (mapped.ttl (user_sessions_key sessions (codes "u")) store)
extend-bounds_example =
    extend-bounds mapped plain mapped-KeyLaws sessions (λ i. delivered) (λ i. pos (7 + i))
      (codes "01ab") 90 store (omega arith) found (omega arith) index_exists index_expires extended
