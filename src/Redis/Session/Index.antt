-- ===== src/Redis/Session/Index.antt =====
-- redis/session.go: the operations of `SessionStore` on sessions and the index of a user's sessions.
pub mod Deleted
pub mod Emptied
pub mod Updated
pub mod Counted
pub mod Extended
mod Tests
use txova_go_db.Prelude.{
  ℕ, suc, ◌+◌, ◌++◌, Bool, true, false, ◌||◌, List, [], ◌∷◌, Option, none, some, Result, ok, err,
  map, ltb, if◌then◌else◌,
}
use txova_go_db.Prelude.Int.{ℤ, pos, ◌+ℤ◌, ltb_ℤ}
use txova_go_db.Text.{Text}
use txova_go_db.Redis.Errors.{Error, from_redis_error}
use txova_go_db.Redis.Errors.Kinds.{is_not_found}
use txova_go_db.Redis.Json.{Codec}
use txova_go_db.Redis.Server.{Fault, call}
use txova_go_db.Redis.Keyspace.{Delivery, exec, Keyspace}
use txova_go_db.Redis.Session.{
  Session, SessionStore, session_key, user_sessions_key, command_error, pipeline_result,
  read_session, update_session,
}

abbrev pub pipeline_error : Option Error → Option Error
pipeline_error none = none
pipeline_error (some e) = some (from_redis_error e)

-- The ids without a session, for the clean-up that runs later.
abbrev pub Stale : Type 0
Stale = List Text

-- The counts of the pipelined EXISTS, of which there are as many as ids.
pub count_existing : List Text → List ℕ → ℕ × Stale
count_existing [] counts = (0, [])
count_existing (session_id ∷ ids) [] = (0, [])
count_existing (session_id ∷ ids) (n ∷ counts) =
    let (count, stale) = count_existing ids counts in
    if ltb 0 n then (count + 1, stale) else (count, session_id ∷ stale)

abbrev pub count_reply : List Text → Result Error (List ℕ) → Result Error (ℕ × Stale)
count_reply ids (err e) = err (from_redis_error e)
count_reply ids (ok counts) = ok (count_existing ids counts)

module _ (server : Keyspace) (codec : Codec Session) where
  open server use {Store}
  open codec use {unmarshal}

  pub delete_read :
      SessionStore → Delivery → Text → Result Error Session → Store → Option Error × Store
  delete_read st delivery session_id (err e) s = (if is_not_found e then none else some e, s)
  delete_read st delivery session_id (ok session) s =
      let commands =
        (λ x. (server.del (session_key st session_id ∷ []) x).1)
        ∷ server.srem (user_sessions_key st session.user_id) (session_id ∷ [])
        ∷ [] in
      let (e, s') = exec delivery commands s in (pipeline_error e, s')

  pub delete : SessionStore → Fault → Delivery → Text → Store → Option Error × Store
  unfolding delete_read
  delete st fault delivery session_id s =
      delete_read st delivery session_id (read_session server codec st fault session_id s) s

  -- The ids of the index.
  abbrev pub members : SessionStore → Fault → Text → Store → Result Error (List Text)
  members st fault user_id s =
      (call fault (λ x. (server.smembers (user_sessions_key st user_id) x, x)) s).0

  abbrev pub deleted_reply : Result Error ℕ → Result Error ℕ
  deleted_reply (ok n) = ok n
  deleted_reply (err e) = err (from_redis_error e)

  pub delete_members :
      SessionStore → Fault → Text → Result Error (List Text) → Store → Result Error ℕ × Store
  delete_members st fault user_id (err e) s = (err (from_redis_error e), s)
  delete_members st fault user_id (ok []) s = (ok 0, s)
  delete_members st fault user_id (ok (session_id ∷ ids)) s =
      let keys = map (session_key st) (session_id ∷ ids) ++ (user_sessions_key st user_id ∷ []) in
      let (reply, s') = call fault (server.del keys) s in (deleted_reply reply, s')

  pub delete_by_user_id : SessionStore → Fault → Fault → Text → Store → Result Error ℕ × Store
  unfolding delete_members
  delete_by_user_id st fault_members fault_del user_id s =
      delete_members st fault_del user_id (members st fault_members user_id s) s

  abbrev pub add_session : Result Error Session → List Session → List Session
  add_session (ok session) sessions = session ∷ sessions
  add_session (err e) sessions = sessions

  -- The loop over the results of MGET, of which there are as many as ids.
  pub read_results : List Text → List (Option Text) → List Session × Stale
  read_results [] results = ([], [])
  read_results (session_id ∷ ids) [] = ([], [])
  read_results (session_id ∷ ids) (none ∷ results) =
      let (sessions, stale) = read_results ids results in (sessions, session_id ∷ stale)
  read_results (session_id ∷ ids) (some text ∷ results) =
      let (sessions, stale) = read_results ids results in
      (add_session (unmarshal text) sessions, stale)

  abbrev pub list_reply :
      List Text → Result Error (List (Option Text)) → Result Error (List Session × Stale)
  list_reply ids (err e) = err (from_redis_error e)
  list_reply ids (ok results) = ok (read_results ids results)

  pub list_members :
      SessionStore → Fault → Result Error (List Text) → Store → Result Error (List Session × Stale)
  unfolding read_results
  list_members st fault (err e) s = err (from_redis_error e)
  list_members st fault (ok []) s = ok ([], [])
  list_members st fault (ok (session_id ∷ ids)) s =
      list_reply (session_id ∷ ids)
        (call fault (λ x. (server.mget (map (session_key st) (session_id ∷ ids)) x, x)) s).0

  pub list_by_user_id :
      SessionStore → Fault → Fault → Text → Store → Result Error (List Session × Stale)
  unfolding list_members
  list_by_user_id st fault_members fault_mget user_id s =
      list_members st fault_mget (members st fault_members user_id s) s

  -- The goroutine that removes stale ids from the index; it is started only if there are some.
  unfoldable clean_up : SessionStore → Fault → Text → Stale → Store → Store
  clean_up st fault user_id [] s = s
  clean_up st fault user_id (session_id ∷ stale) s =
      (call fault (λ x. (tt, server.srem (user_sessions_key st user_id) (session_id ∷ stale) x))
        s).1

  pub count_members :
      SessionStore → Fault → Result Error (List Text) → Store → Result Error (ℕ × Stale)
  unfolding count_existing
  count_members st fault (err e) s = err (from_redis_error e)
  count_members st fault (ok []) s = ok (0, [])
  count_members st fault (ok (session_id ∷ ids)) s =
      count_reply (session_id ∷ ids)
        (call fault (λ x. (map (λ i. server.exists (session_key st i) x) (session_id ∷ ids), x))
          s).0

  pub count : SessionStore → Fault → Fault → Text → Store → Result Error (ℕ × Stale)
  unfolding count_members
  count st fault_members fault_exists user_id s =
      count_members st fault_exists (members st fault_members user_id s) s

  pub exists_reply : Result Error ℕ → Result Error Bool
  exists_reply (ok n) = ok (ltb 0 n)
  exists_reply (err e) = err (from_redis_error e)

  unfoldable exists : SessionStore → Fault → Text → Store → Result Error Bool
  unfolding exists_reply
  exists st fault session_id s =
      exists_reply (call fault (λ x. (server.exists (session_key st session_id) x, x)) s).0

  -- The end of Extend, by the time to live of the index.
  pub extend_index : SessionStore → Fault → Text → ℤ → Result Error ℤ → Store → Option Error × Store
  extend_index st fault user_id ttl (err e) s = (some (from_redis_error e), s)
  extend_index st fault user_id ttl (ok current) s =
      let (reply, s') = call fault (server.expire (user_sessions_key st user_id) ttl) s in
      if ltb_ℤ current (pos 0) || ltb_ℤ current ttl then (command_error reply, s') else (none, s)

  pub extend_updated :
      SessionStore → Fault → Fault → Text → ℤ → Option Error → Store → Option Error × Store
  unfolding extend_index
  extend_updated st fault_ttl fault_expire user_id ttl (some e) s = (some e, s)
  extend_updated st fault_ttl fault_expire user_id ttl none s =
      let current = (call fault_ttl (λ x. (server.ttl (user_sessions_key st user_id) x, x)) s).0 in
      extend_index st fault_expire user_id ttl current s

  -- The connections: for GET, SET, TTL and EXPIRE.
  pub extend_read :
      SessionStore → (ℕ → Fault) → (ℕ → ℤ) → ℤ → Result Error Session → Store → Option Error × Store
  unfolding extend_updated
  extend_read st faults clock ttl (err e) s = (some e, s)
  extend_read st faults clock ttl (ok session) s =
      let extended = record session { expires_at = clock 0 +ℤ ttl; last_active = clock 1 } in
      let ((e, _), s') = update_session server codec st (faults 1) (clock 2) (clock 3) extended s in
      extend_updated st (faults 2) (faults 3) session.user_id ttl e s'

  pub extend : SessionStore → (ℕ → Fault) → (ℕ → ℤ) → Text → ℤ → Store → Option Error × Store
  unfolding extend_read
  extend st faults clock session_id ttl s =
      extend_read st faults clock ttl (read_session server codec st (faults 0) session_id s) s
