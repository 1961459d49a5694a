-- ===== src/Redis/Session/Index/Updated.antt =====
-- redis/session.go: what Update leaves of a session, and the end that it has.
use txova_go_db.Prelude.{
  ℕ, ◌≡◌, refl, ap, ◌∙◌, inl, inr, none, Result, ok, err, Bool-cases, if◌then◌else◌,
}
use txova_go_db.Prelude.Int.{ℤ, pos, ◌+ℤ◌, ◌-ℤ◌, leb_ℤ}
use txova_go_db.Text.{Text}
use txova_go_db.Redis.Errors.{Error}
use txova_go_db.Redis.Json.{Codec, CodecLaws}
use txova_go_db.Redis.Server.{Fault, delivered, refused, lost}
use txova_go_db.Redis.Keyspace.{Keyspace, KeyLaws}
use txova_go_db.Redis.Session.{
  Session, SessionStore, session_key, update_encoded, update_session, update_touched, read_session,
}
use txova_go_db.Redis.Session.Created.{read_stored}

module _ (server : Keyspace) (codec : Codec Session) where
  open server use {Store}
  open codec use {marshal}

  -- What an update without an error has written.
  pub update_encoded-stored :
      (st : SessionStore) (fault : Fault) (until now : ℤ) (session : Session)
      (encoded : Result Error Text) (s : Store)
      → (update_encoded server codec st fault until now session encoded s).0.0 ≡ none
      → (text : Text) × ((d : ℤ) × (encoded ≡ ok text)
          × ((update_encoded server codec st fault until now session encoded s).1
              ≡ server.set (session_key st session.id) text d s))
  unfolding update_encoded
  update_encoded-stored st fault until now session (err e) s done = cc
  update_encoded-stored st delivered until now session (ok text) s done = (text, (_, refl, refl))
  update_encoded-stored st (refused e) until now session (ok text) s done = cc
  update_encoded-stored st (lost e) until now session (ok text) s done = cc

  update_encoded-expires_at :
      (st : SessionStore) (fault : Fault) (until now : ℤ) (session : Session)
      (encoded : Result Error Text) (s : Store)
      → (update_encoded server codec st fault until now session encoded s).0.0 ≡ none
      → (update_encoded server codec st fault until now session encoded s).0.1.expires_at ≡ (
          if leb_ℤ (session.expires_at -ℤ until) (pos 0)
          then now +ℤ st.default_ttl
          else session.expires_at)
  unfolding update_encoded
  update_encoded-expires_at st fault until now session (err e) s done = cc
  update_encoded-expires_at st fault until now session (ok text) s done =
      elim (Bool-cases (leb_ℤ (session.expires_at -ℤ until) (pos 0))) [
        | inl over ↦ rw over refl
        | inr left ↦ rw left refl
      ]

  module _ (laws : KeyLaws server) where
    open laws use {set_get}

    -- When Update returns no error, the session that is read afterwards is the one that was given
    -- with the time of the update, its end included, while the session in memory has a new end if the
    -- old one was over.
    pub update_touched-read_session :
        (decoding : CodecLaws codec) (st : SessionStore) (fault : Fault) (clock : ℕ → ℤ)
        (session : Session) (s : Store)
        → (update_touched server codec st fault clock session s).0.0 ≡ none
        → (read_session server codec st delivered session.id
              (update_touched server codec st fault clock session s).1
            ≡ ok (record session { last_active = clock 0 }))
          × ((update_touched server codec st fault clock session s).0.1.expires_at ≡ (
              if leb_ℤ (session.expires_at -ℤ clock 1) (pos 0)
              then clock 2 +ℤ st.default_ttl
              else session.expires_at))
    unfolding update_touched update_session
    update_touched-read_session decoding st fault clock session s done =
        let touched : Session = record session { last_active = clock 0 } in
        let (text, (d, encoded, stored)) =
          update_encoded-stored st fault (clock 1) (clock 2) touched (marshal touched) s done in
        (
          read_stored server codec laws decoding st touched text session.id _ encoded (
              ap (server.get (session_key st session.id)) stored
              ∙ set_get (session_key st session.id) text d s),
          update_encoded-expires_at st fault (clock 1) (clock 2) touched (marshal touched) s done,
        )
