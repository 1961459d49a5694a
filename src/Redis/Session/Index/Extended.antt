-- ===== src/Redis/Session/Index/Extended.antt =====
-- redis/session.go: the time to live of the index behind Extend.
use txova_go_db.Prelude.{
  ℕ, ◌*◌, ◌<◌, ◌≡◌, ◌≢◌, refl, sym, ap, ◌∙◌, inl, inr, ◌||◌, Option, none, some, ok, err,
  Bool-cases, subst, arith,
}
use txova_go_db.Prelude.Int.{ℤ, pos, negsuc, ◌+ℤ◌, ◌≤ℤ◌, ltb_ℤ}
use txova_go_db.Text.{Text, Lacks}
use txova_go_db.Redis.Errors.{Error}
use txova_go_db.Redis.Json.{Codec}
use txova_go_db.Redis.Server.{Fault, delivered, refused, lost, call}
use txova_go_db.Redis.Keyspace.{Keyspace, KeyLaws}
use txova_go_db.Redis.Session.{
  Session, SessionStore, session_key, user_sessions_key, command_error, update_encoded,
  update_session, read_session,
}
use txova_go_db.Redis.Session.Ids.{session_key-apart}
use txova_go_db.Redis.Session.Made.{Outlasts}
use txova_go_db.Redis.Session.Index.{extend_index, extend_updated, extend_read, extend}
use txova_go_db.Redis.Session.Index.Updated.{update_encoded-stored}

module _ (server : Keyspace) (codec : Codec Session) where
  open server use {Store}
  open codec use {marshal, unmarshal}

  module _ (laws : KeyLaws server) where
    open laws use {expire_ttl, set_get, set_other, set_ttl, exists_iff}

    extend_index-failed :
        (st : SessionStore) (fault : Fault) (user_id : Text) (ttl : ℤ) (e : Error) (s : Store)
        → (extend_index server codec st fault user_id ttl (err e) s).0 ≡ none
        → ⊥
    unfolding extend_index
    extend_index-failed st fault user_id ttl e s h = cc

    -- As a number, the time to live of the index is at least what it was, and the session's.
    abbrev Outlives : SessionStore → Text → ℕ → Store → Store → Type 0
    Outlives st user_id m s s' =
        (pos (m * 1000000000) ≤ℤ server.ttl (user_sessions_key st user_id) s')
        × (server.ttl (user_sessions_key st user_id) s
            ≤ℤ server.ttl (user_sessions_key st user_id) s')

    extend_index-bounds :
        (st : SessionStore) (fault : Fault) (user_id : Text) (m : ℕ) (s : Store)
        → 0 < m
        → server.exists (user_sessions_key st user_id) s ≡ 1
        → (extend_index server codec st fault user_id
            (pos (m * 1000000000))
            (ok (server.ttl (user_sessions_key st user_id) s))
            s).0
          ≡ none
        → Outlives st user_id m s
            (extend_index server codec st fault user_id
              (pos (m * 1000000000))
              (ok (server.ttl (user_sessions_key st user_id) s))
              s).1
    unfolding extend_index
    extend_index-bounds st fault user_id m s h one done =
        let index = user_sessions_key st user_id in
        let ttl = pos (m * 1000000000) in
        let current = server.ttl index s in
        elim (Bool-cases (ltb_ℤ current (pos 0) || ltb_ℤ current ttl)) [
          | inr longer ↦ rw longer (ground arith, ground arith)
          | inl shorter ↦
              let sent = rw shorter at done in
              rw (shorter, expired fault sent, expire_ttl index m s h one)
                (ground arith, ground arith)
        ]
      where
        expired :
            (fault : Fault)
            → command_error
                (call fault
                  (server.expire (user_sessions_key st user_id) (pos (m * 1000000000)))
                  s).0
              ≡ none
            → (call fault (server.expire (user_sessions_key st user_id) (pos (m * 1000000000))) s).1
              ≡ (server.expire (user_sessions_key st user_id) (pos (m * 1000000000)) s).1
        expired delivered done = refl
        expired (refused e) done = cc
        expired (lost e) done = cc

    -- SET of another key leaves the existence of a key.
    exists-set :
        (k k' v : Text) (d : ℤ) (s : Store)
        → k' ≢ k
        → server.exists k' s ≡ 1
        → server.exists k' (server.set k v d s) ≡ 1
    exists-set k k' v d s ne one =
        let (string, members) = set_other k k' v d s ne in
        elim (exists_iff k' (server.set k v d s)) [
          | inr (e, _) ↦ e
          | inl (_, no_string, no_member) ↦ elim (exists_iff k' s) [
            | inl (zero_before, _, _) ↦ omega (arith, one, zero_before)
            | inr (_, inl has) ↦ absurd (has (sym string ∙ no_string))
            | inr (_, inr has) ↦ absurd (has (sym members ∙ no_member))
          ]
        ]

    extend_updated-none :
        (st : SessionStore) (fault fault' : Fault) (user_id : Text) (ttl : ℤ) (e : Option Error)
        (s : Store)
        → (extend_updated server codec st fault fault' user_id ttl e s).0 ≡ none
        → e ≡ none
    unfolding extend_updated
    extend_updated-none st fault fault' user_id ttl none s h = refl
    extend_updated-none st fault fault' user_id ttl (some e) s h = cc

    extend_updated-bounds :
        (st : SessionStore) (faults : ℕ → Fault) (user_id : Text) (m : ℕ) (e : Option Error)
        (s : Store)
        → 0 < m
        → server.exists (user_sessions_key st user_id) s ≡ 1
        → (extend_updated server codec st
            (faults 2)
            (faults 3)
            user_id
            (pos (m * 1000000000))
            e
            s).0
          ≡ none
        → Outlives st user_id m s
            (extend_updated server codec st
              (faults 2)
              (faults 3)
              user_id
              (pos (m * 1000000000))
              e
              s).1
    unfolding extend_updated
    extend_updated-bounds st faults user_id m (some e) s h one done = cc
    extend_updated-bounds st faults user_id m none s h one done = by_fault (faults 2) done
      where
        by_fault :
            (fault : Fault)
            → (extend_index server codec st
                (faults 3)
                user_id
                (pos (m * 1000000000))
                (call fault (λ x. (server.ttl (user_sessions_key st user_id) x, x)) s).0
                s).0
              ≡ none
            → Outlives st user_id m s
                (extend_index server codec st
                  (faults 3)
                  user_id
                  (pos (m * 1000000000))
                  (call fault (λ x. (server.ttl (user_sessions_key st user_id) x, x)) s).0
                  s).1
        by_fault delivered done = extend_index-bounds st (faults 3) user_id m s h one done
        by_fault (refused e) done =
            absurd (extend_index-failed st (faults 3) user_id (pos (m * 1000000000)) e s done)
        by_fault (lost e) done =
            absurd (extend_index-failed st (faults 3) user_id (pos (m * 1000000000)) e s done)

    extend_read-Outlives :
        (st : SessionStore) (faults : ℕ → Fault) (clock : ℕ → ℤ) (m : ℕ) (session : Session)
        (s : Store)
        → 0 < m
        → Lacks b':' session.id
        → server.exists (user_sessions_key st session.user_id) s ≡ 1
        → (extend_read server codec st faults clock (pos (m * 1000000000)) (ok session) s).0 ≡ none
        → Outlives st session.user_id m s
            (extend_read server codec st faults clock (pos (m * 1000000000)) (ok session) s).1
    unfolding extend_read update_session
    extend_read-Outlives st faults clock m session s h colon one done =
        let index = user_sessions_key st session.user_id in
        let key = session_key st session.id in
        let extended : Session = record session {
          expires_at = clock 0 +ℤ pos (m * 1000000000);
          last_active = clock 1;
        } in
        let updated =
          update_encoded server codec st (faults 1) (clock 2) (clock 3) extended (marshal extended)
            s in
        let no_error =
          extend_updated-none st (faults 2) (faults 3) session.user_id (pos (m * 1000000000))
            updated.0.0 updated.1 done in
        let (text, (d, _, stored)) =
          update_encoded-stored server codec st (faults 1) (clock 2) (clock 3) extended
            (marshal extended) s no_error in
        let apart : index ≢ key =
          λ e. session_key-apart st session.id session.user_id colon (sym e) in
        let exists_after : server.exists index updated.1 ≡ 1 =
          ap (server.exists index) stored ∙ exists-set key index text d s apart one in
        let same : server.ttl index updated.1 ≡ server.ttl index s =
          ap (server.ttl index) stored ∙ set_ttl key index text d s apart in
        let (lasts, keeps) =
          extend_updated-bounds st faults session.user_id m updated.0.0 updated.1 h exists_after
            done in
        let after =
          extend_updated server codec st (faults 2) (faults 3) session.user_id
            (pos (m * 1000000000)) updated.0.0 updated.1 in
        (lasts, subst (λ x. x ≤ℤ server.ttl index after.1) same keeps)

    -- When Extend of a session with an id without a colon, by a positive number of whole seconds,
    -- returns no error, the time to live of the user's index, which exists and expires, is neither
    -- shorter than before nor shorter than the new one of the session.
    pub extend-bounds :
        (st : SessionStore) (faults : ℕ → Fault) (clock : ℕ → ℤ) (id : Text) (m : ℕ) (s : Store)
        {session : Session}
        → 0 < m
        → read_session server codec st (faults 0) id s ≡ ok session
        → Lacks b':' session.id
        → server.exists (user_sessions_key st session.user_id) s ≡ 1
        → server.ttl (user_sessions_key st session.user_id) s ≢ negsuc 0
        → (extend server codec st faults clock id (pos (m * 1000000000)) s).0 ≡ none
        → (let s' = (extend server codec st faults clock id (pos (m * 1000000000)) s).1 in
            (pos (m * 1000000000) ≤ℤ server.ttl (user_sessions_key st session.user_id) s')
            × Outlasts
                (server.ttl (user_sessions_key st session.user_id) s')
                (server.ttl (user_sessions_key st session.user_id) s))
    unfolding extend
    extend-bounds st faults clock id m s {session} h found colon one expires done = rw found (
        let (lasts, keeps) =
          extend_read-Outlives st faults clock m session s h colon one (rw found at done) in
        (lasts, inr (expires, keeps)))
