-- ===== src/Redis/Session/Created.antt =====
-- redis/session.go: what CreateWithTTL leaves in the store, and what Get reads of it.
use txova_go_db.Prelude.{
  ℕ, ◌*◌, ◌<◌, ◌≡◌, ◌≢◌, refl, sym, ap, ◌∙◌, inl, inr, true, false, List, [], none, some, Result,
  ok, subst, arith, All,
}
use txova_go_db.Prelude.Int.{ℤ, pos, negsuc, ◌≤ℤ◌, ◌<ℤ◌}
use txova_go_db.Text.{Text, Lacks}
use txova_go_db.Text.Equality.{text_eq_refl}
use txova_go_db.Text.Members.{mem}
use txova_go_db.Redis.Errors.{Error}
use txova_go_db.Redis.Json.{Codec, CodecLaws}
use txova_go_db.Redis.Server.{Fault, delivered}
use txova_go_db.Redis.Keyspace.{Delivery, run_all, Keyspace, KeyLaws}
use txova_go_db.Redis.Session.{
  Session, SessionStore, SessionCreateOption, session_key, user_sessions_key, index_ttl,
  create_commands, create_with_ttl, read_reply, read_session, touch_read, get_with_touch,
}
use txova_go_db.Redis.Session.Ids.{session_key-apart, generate_session_id_injective, IsByte}
use txova_go_db.Redis.Session.Made.{
  Outlasts, index_ttl-bounds, index_ttl-seconds, create_with_ttl-Made,
}

module _ (server : Keyspace) (codec : Codec Session) where
  open server use {Store}
  open codec use {marshal}

  module _ (laws : KeyLaws server) where
    open laws use {
      set_get, set_other, sadd_get, sadd_mem, expire_keeps, expire_ttl, exists_iff, ttl_seconds,
    }

    -- The index has the new id, if its key holds no string.
    indexed :
        (st : SessionStore) (session : Session) (user_id text : Text) (ttl : ℤ) (s : Store)
        → Lacks b':' session.id
        → server.get (user_sessions_key st user_id) s ≡ none
        → mem session.id (
            server.smembers (user_sessions_key st user_id) (
              server.sadd
                (user_sessions_key st user_id)
                session.id
                (server.set (session_key st session.id) text ttl s)))
          ≡ true
    indexed st session user_id text ttl s colon free =
        let index = user_sessions_key st user_id in
        let key = session_key st session.id in
        let apart : index ≢ key = λ e. session_key-apart st session.id user_id colon (sym e) in
        let (no_string, _) = set_other key index text ttl s apart in
        sadd_mem index session.id session.id (server.set key text ttl s) (no_string ∙ free)
        ∙ rw (text_eq_refl session.id) refl

    -- A set with a member exists.
    pub exists-member :
        (k x : Text) (s : Store) → mem x (server.smembers k s) ≡ true → server.exists k s ≡ 1
    unfolding mem
    exists-member k x s m = elim (exists_iff k s) [
      | inl (_, _, empty) ↦ let no : mem x [] ≡ true = rw empty at m in cc
      | inr (one, _) ↦ one
    ]

    -- With the time to live that CreateWithTTL computes, EXPIRE leaves the value of a key.
    created-get :
        (st : SessionStore) (session : Session) (user_id text : Text) (ttl : ℤ) (s : Store)
        → pos 0 <ℤ ttl
        → server.get (session_key st session.id) (
            run_all
              (create_commands server codec st session user_id text ttl
                (server.ttl (user_sessions_key st user_id) s))
              s)
          ≡ some text
    unfolding create_commands
    created-get st session user_id text ttl s p =
        let index = user_sessions_key st user_id in
        let key = session_key st session.id in
        let current = server.ttl index s in
        let (longer, _) = index_ttl-bounds ttl current p in
        let later : pos 0 <ℤ index_ttl ttl current = omega arith in
        let s1 = server.set key text ttl s in
        (expire_keeps index key (index_ttl ttl current) (server.sadd index session.id s1) later).0
        ∙ sadd_get index key session.id s1
        ∙ set_get key text ttl s

    module _ (decoding : CodecLaws codec) where
      open decoding use {decodes}

      pub read_stored :
          (st : SessionStore) (session : Session) (text id : Text) (s : Store)
          → marshal session ≡ ok text
          → server.get (session_key st id) s ≡ some text
          → read_session server codec st delivered id s ≡ ok session
      unfolding read_session read_reply
      read_stored st session text id s encoded stored = rw (stored, decodes session encoded) refl

      -- When CreateWithTTL returns a session, GetWithTouch of its id, without the touch and with a
      -- connection that delivers, returns the same session and leaves the store as it is.
      pub create_with_ttl-get_with_touch :
          (st : SessionStore) (random : Result Error (List ℕ)) (fault : Fault) (delivery : Delivery)
          (now : ℤ) (user_id : Text) (ttl : ℤ) (opts : List SessionCreateOption) (s : Store)
          (fault_set : Fault) (clock : ℕ → ℤ) {session : Session}
          → (create_with_ttl server codec st random fault delivery now user_id ttl opts s).0
            ≡ ok session
          → get_with_touch server codec st delivered fault_set false clock session.id
              (create_with_ttl server codec st random fault delivery now user_id ttl opts s).1
            ≡ (
              ok session,
              (create_with_ttl server codec st random fault delivery now user_id ttl opts s).1,
            )
      unfolding get_with_touch touch_read
      create_with_ttl-get_with_touch st random fault delivery now user_id ttl opts s fault_set clock
            {session} h =
          let made =
            create_with_ttl-Made server codec st random fault delivery now user_id ttl opts s h in
          let stored =
            ap (server.get (session_key st session.id)) made.ran
            ∙ created-get st session user_id made.text ttl s made.positive in
          let found = read_stored st session made.text session.id _ made.encoded stored in
          rw found refl

    created-index :
        (st : SessionStore) (session : Session) (user_id text : Text) (m : ℕ) (s : Store)
        → 0 < m
        → Lacks b':' session.id
        → server.get (user_sessions_key st user_id) s ≡ none
        → (mem session.id (
              server.smembers (user_sessions_key st user_id) (
                run_all
                  (create_commands server codec st session user_id text
                    (pos (m * 1000000000))
                    (server.ttl (user_sessions_key st user_id) s))
                  s))
            ≡ true)
          × (server.ttl (user_sessions_key st user_id) (
                run_all
                  (create_commands server codec st session user_id text
                    (pos (m * 1000000000))
                    (server.ttl (user_sessions_key st user_id) s))
                  s)
              ≡ index_ttl (pos (m * 1000000000)) (server.ttl (user_sessions_key st user_id) s))
    unfolding create_commands
    created-index st session user_id text m s h colon free =
        let index = user_sessions_key st user_id in
        let current = server.ttl index s in
        let (n, lasting, e) = index_ttl-seconds m current (ttl_seconds index s) h in
        let s1 = server.set (session_key st session.id) text (pos (m * 1000000000)) s in
        let s2 = server.sadd index session.id s1 in
        let member = indexed st session user_id text (pos (m * 1000000000)) s colon free in
        let later : pos 0 <ℤ pos (n * 1000000000) = omega arith in
        let (_, keeps) = expire_keeps index index (pos (n * 1000000000)) s2 later in
        rw e (
          ap (mem session.id) keeps ∙ member,
          expire_ttl index n s2 lasting (exists-member index session.id s2 member),
        )

    -- A session with a time to live of `m` seconds.
    module _ (st : SessionStore) (bytes : List ℕ) (fault : Fault) (delivery : Delivery) (now : ℤ)
        (user_id : Text) (m : ℕ) (opts : List SessionCreateOption) (s : Store) where
      abbrev ttl_before : ℤ
      ttl_before = server.ttl (user_sessions_key st user_id) s

      abbrev result : Result Error Session × Store
      result =
          create_with_ttl server codec st (ok bytes) fault delivery now user_id
            (pos (m * 1000000000)) opts s

      abbrev ttl_after : ℤ
      ttl_after = server.ttl (user_sessions_key st user_id) result.1

      module _ {session : Session} (are_bytes : All IsByte bytes)
          (free : server.get (user_sessions_key st user_id) s ≡ none)
          (returned : result.0 ≡ ok session) where
        -- The new id is in the index, and the time to live is as computed.
        created-ttl :
            (mem session.id (server.smembers (user_sessions_key st user_id) result.1) ≡ true)
            × (pos 0 <ℤ pos (m * 1000000000))
            × (ttl_after ≡ index_ttl (pos (m * 1000000000)) ttl_before)
        created-ttl =
            let made =
              create_with_ttl-Made server codec st (ok bytes) fault delivery now user_id
                (pos (m * 1000000000)) opts s returned in
            let p = made.positive in
            let (_, _, colon) =
              generate_session_id_injective bytes bytes are_bytes are_bytes made.named made.named in
            let (member, lives) =
              created-index st session user_id made.text m s (omega arith) colon free in
            (
              ap (λ x. mem session.id (server.smembers (user_sessions_key st user_id) x)) made.ran
                  ∙ member,
              p,
              ap (server.ttl (user_sessions_key st user_id)) made.ran ∙ lives,
            )

        -- When CreateWithTTL with a time to live in whole seconds and bytes from the random source
        -- returns a session, its id is in the index of the user, whose time to live is neither
        -- shorter than before nor shorter than the session's, if the key of the index holds no
        -- string, and expires if it exists.
        pub create_with_ttl-indexed :
            ttl_before ≢ negsuc 0
            → (mem session.id (server.smembers (user_sessions_key st user_id) result.1) ≡ true)
              × (pos (m * 1000000000) ≤ℤ ttl_after)
              × Outlasts ttl_after ttl_before
        create_with_ttl-indexed expires =
            let (member, p, lives) = created-ttl in
            let (longer, kept) = index_ttl-bounds (pos (m * 1000000000)) ttl_before p in
            (
              member,
              subst (λ x. pos (m * 1000000000) ≤ℤ x) (sym lives) longer,
              inr (expires, subst (λ x. ttl_before ≤ℤ x) (sym lives) kept),
            )

        -- When CreateWithTTL with a time to live in whole seconds and bytes from the random source
        -- returns a session for a user whose index does not expire (as a pipeline that was cut
        -- behind SADD leaves it), and the key of the index holds no string, the index has the time
        -- to live of that session, however long the other sessions in it last.
        pub create_with_ttl-shortens :
            ttl_before ≡ negsuc 0
            → (ttl_after ≡ pos (m * 1000000000)) × (¬ Outlasts ttl_after ttl_before)
        unfolding index_ttl
        create_with_ttl-shortens never =
            let (_, _, lives) = created-ttl in
            let now_expires = lives ∙ ap (index_ttl (pos (m * 1000000000))) never in
            (
              now_expires,
              λ lasts. elim lasts [
                | inl forever ↦ let no = sym now_expires ∙ forever in cc
                | inr (other, _) ↦ other never
              ],
            )
