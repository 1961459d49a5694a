-- ===== src/Redis/Session/Index/Deleted.antt =====
-- redis/session.go: what Delete leaves of a session and of the index.
use txova_go_db.Prelude.{
  ◌≡◌, refl, sym, ap, ◌∙◌, ◌⊎◌, inl, inr, false, [], ◌∷◌, none, some, Result, ok, err, Bool-cases,
  Option-cases,
}
use txova_go_db.Text.{Text, codes}
use txova_go_db.Text.Members.{mem, mem-last}
use txova_go_db.Redis.Errors.{Error}
use txova_go_db.Redis.Errors.Kinds.{is_not_found, serialization_wrap, serialization_wrap-found}
use txova_go_db.Redis.Json.{Codec, serialized}
use txova_go_db.Redis.Server.{delivered}
use txova_go_db.Redis.Keyspace.{Delivery, whole, cut, Keyspace, KeyLaws}
use txova_go_db.Redis.Session.{
  Session, SessionStore, session_key, user_sessions_key, read_reply, read_session,
}
use txova_go_db.Redis.Session.Index.{delete_read, delete}

module _ (server : Keyspace) (codec : Codec Session) (laws : KeyLaws server) where
  open server use {Store, nil_text}
  open codec use {unmarshal}
  open laws use {del_gone, del_other, del_count, srem_mem, srem_get, smembers_distinct, exists_iff}

  deleted_session :
      (st : SessionStore) (delivery : Delivery) (id : Text) (session : Session) (s : Store)
      → ((u : Text) → server.get (user_sessions_key st u) s ≡ none)
      → (delete_read server codec st delivery id (ok session) s).0 ≡ none
      → (server.get (session_key st id) (delete_read server codec st delivery id (ok session) s).1
          ≡ none)
        × (mem id (
              server.smembers
                (user_sessions_key st session.user_id)
                (delete_read server codec st delivery id (ok session) s).1)
            ≡ false)
  unfolding delete_read
  deleted_session st (cut n e) id session s strings h = cc
  deleted_session st whole id session s strings h =
      let index = user_sessions_key st session.user_id in
      let key = session_key st id in
      let s1 = (server.del (key ∷ []) s).1 in
      let (gone, _) = del_gone key (key ∷ []) s (mem-last [] key) in
      let no_string : server.get index s1 ≡ none = elim (Bool-cases (mem index (key ∷ []))) [
        | inl e ↦ (del_gone index (key ∷ []) s e).0
        | inr e ↦ (del_other index (key ∷ []) s e).0 ∙ strings session.user_id
      ] in
      (
        srem_get index key (id ∷ []) s1 ∙ gone,
        srem_mem index id (id ∷ []) s1 no_string ∙ rw (mem-last [] id) refl,
      )

  read_decoded :
      (st : SessionStore) (id text : Text) (s : Store)
      → server.get (session_key st id) s ≡ some text
      → read_session server codec st delivered id s
        ≡ serialized (codes "failed to unmarshal session") (unmarshal text)
  unfolding read_session read_reply
  read_decoded st id text s h = rw h refl

  -- What Delete finds.
  read_session-cases :
      (st : SessionStore) (id : Text) (s : Store)
      → (server.get (session_key st id) s ≡ none)
        ⊎ ((session : Session) × (read_session server codec st delivered id s ≡ ok session))
        ⊎ ((e : Error) × (read_session server codec st delivered id s ≡ err e)
            × (is_not_found e ≡ false))
  read_session-cases st id s = elim (Option-cases (server.get (session_key st id) s)) [
    | inl missing ↦ inl missing
    | inr (text, found) ↦ inr (read_text st id text s found (unmarshal text) refl)
  ]
    where
      read_text :
          (st : SessionStore) (id text : Text) (s : Store)
          → server.get (session_key st id) s ≡ some text
          → (decoded : Result Error Session) → unmarshal text ≡ decoded
          → ((session : Session) × (read_session server codec st delivered id s ≡ ok session))
            ⊎ ((e : Error) × (read_session server codec st delivered id s ≡ err e)
                × (is_not_found e ≡ false))
      read_text st id text s found (ok session) d =
          inl (session, read_decoded st id text s found ∙ ap (serialized _) d)
      read_text st id text s found (err e) d = inr (
        serialization_wrap (codes "failed to unmarshal session") e,
        read_decoded st id text s found ∙ ap (serialized _) d,
        serialization_wrap-found _ e,
      )

  delete_read-deleted :
      (st : SessionStore) (delivery : Delivery) (id : Text) (s : Store)
      (found : Result Error Session)
      → read_session server codec st delivered id s ≡ found
      → ((u : Text) → server.get (user_sessions_key st u) s ≡ none)
      → (delete_read server codec st delivery id found s).0 ≡ none
      → ((server.get (session_key st id) s ≡ none)
          × ((delete_read server codec st delivery id found s).1 ≡ s))
        ⊎ ((session : Session) × (read_session server codec st delivered id s ≡ ok session)
            × (server.get (session_key st id) (delete_read server codec st delivery id found s).1
                ≡ none)
            × (mem id (
                  server.smembers
                    (user_sessions_key st session.user_id)
                    (delete_read server codec st delivery id found s).1)
                ≡ false))
  unfolding delete_read
  delete_read-deleted st delivery id s (ok session) f strings h =
      let (gone, out) = deleted_session st delivery id session s strings h in
      inr (session, f, gone, out)
  delete_read-deleted st delivery id s (err e) f strings h = elim (read_session-cases st id s) [
    | inl missing ↦ inl (missing, refl)
    | inr (inl (session, other)) ↦ let no : err e ≡ ok session = sym f ∙ other in cc
    | inr (inr (e', other, bad)) ↦
        let same : e ≡ e' = (let both : err e ≡ err e' = sym f ∙ other in cc) in
        let no : is_not_found e ≡ false = ap is_not_found same ∙ bad in
        let failed = rw no at h in cc
  ]

  -- When Delete, whose GET is delivered, returns no error, the session is gone: there was none and
  -- the store is as it was, or its id is no longer in the index of the user that it named, if no key
  -- of an index holds a string.
  pub delete-read_session :
      (st : SessionStore) (delivery : Delivery) (id : Text) (s : Store)
      → ((u : Text) → server.get (user_sessions_key st u) s ≡ none)
      → (delete server codec st delivered delivery id s).0 ≡ none
      → ((server.get (session_key st id) s ≡ none)
          × ((delete server codec st delivered delivery id s).1 ≡ s))
        ⊎ ((session : Session) × (read_session server codec st delivered id s ≡ ok session)
            × (server.get (session_key st id) (delete server codec st delivered delivery id s).1
                ≡ none)
            × (mem id (
                  server.smembers
                    (user_sessions_key st session.user_id)
                    (delete server codec st delivered delivery id s).1)
                ≡ false))
  unfolding delete
  delete-read_session st delivery id s strings h =
      delete_read-deleted st delivery id s (read_session server codec st delivered id s) refl
        strings h
