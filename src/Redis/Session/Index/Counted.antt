-- ===== src/Redis/Session/Index/Counted.antt =====
-- redis/session.go: Count against ListByUserID.
use txova_go_db.Prelude.{
  ℕ, ◌≡◌, refl, sym, ap, ◌∙◌, ◌⊎◌, inl, inr, List, [], ◌∷◌, Option, none, some, ok, map, length,
  All, arith,
}
use txova_go_db.Text.{Text}
use txova_go_db.Redis.Json.{Codec}
use txova_go_db.Redis.Server.{Fault, delivered}
use txova_go_db.Redis.Keyspace.{Keyspace, KeyLaws}
use txova_go_db.Redis.Session.{Session, SessionStore, session_key, user_sessions_key}
use txova_go_db.Redis.Session.Index.{
  Stale, count_existing, read_results, list_members, list_by_user_id, count_members, count,
}

module _ (server : Keyspace) (codec : Codec Session) (laws : KeyLaws server) where
  open server use {Store}
  open codec use {unmarshal}
  open laws use {mget_map, exists_iff}

  module _ (st : SessionStore) (s : Store) where
    -- The key of the session is missing, or holds the encoded form of a session.
    abbrev pub IsSession : Text → Type 0
    IsSession id =
        (server.smembers (session_key st id) s ≡ [])
        × ((server.get (session_key st id) s ≡ none)
            ⊎ ((text : Text) × (server.get (session_key st id) s ≡ some text)
                × ((session : Session) × (unmarshal text ≡ ok session))))

    read : List Text → List (Option Text)
    read ids = map (λ k. server.get k s) (map (session_key st) ids)

    existing : List Text → List ℕ
    existing ids = map (λ id. server.exists (session_key st id) s) ids

    -- The count and the ids without a session, of either way of reading.
    counted :
        (ids : List Text)
        → All IsSession ids
        → count_existing ids (existing ids) ≡ (
          length (read_results server codec ids (read ids)).0,
          (read_results server codec ids (read ids)).1,
        )
    unfolding count_existing read_results read existing
    counted [] h = refl
    counted (id ∷ ids) ((no_set, here), h) =
        let rest = counted ids h in
        elim here [
          | inl missing ↦
              let zero_count : server.exists (session_key st id) s ≡ 0 =
                elim (exists_iff (session_key st id) s) [
                  | inl (e, _, _) ↦ e
                  | inr (_, inl has) ↦ absurd (has missing)
                  | inr (_, inr has) ↦ absurd (has no_set)
                ] in
              rw (zero_count, missing, rest) refl
          | inr (text, found, (session, decoded)) ↦
              let one_count : server.exists (session_key st id) s ≡ 1 =
                elim (exists_iff (session_key st id) s) [
                  | inl (_, missing, _) ↦ let no : some text ≡ none = sym found ∙ missing in cc
                  | inr (e, _) ↦ e
                ] in
              rw (one_count, found, decoded, rest)
                (ap (λ n. (n, (read_results server codec ids (read ids)).1)) (omega arith))
        ]

    members_counted :
        (fault_mget fault_exists : Fault) (ids : List Text)
        → fault_mget ≡ delivered
        → fault_exists ≡ delivered
        → All IsSession ids
        → (sessions : List Session) × ((stale : Stale) × (list_members server codec st fault_mget
                (ok ids)
                s
              ≡ ok (sessions, stale))
            × (count_members server codec st fault_exists (ok ids) s ≡ ok (length sessions, stale)))
    unfolding list_members count_members existing read count_existing read_results
    members_counted fault_mget fault_exists [] m e h = ([], ([], refl, refl))
    members_counted fault_mget fault_exists (id ∷ ids) m e h =
        let found = read_results server codec (id ∷ ids) (read (id ∷ ids)) in
        (
          found.0,
          (
            found.1,
            rw (m, mget_map (map (session_key st) (id ∷ ids)) s) refl,
            rw e (ap ok (counted (id ∷ ids) h)),
          ),
        )

    -- If each id of a user's index has no session or one that can be decoded, a Count whose commands
    -- are delivered returns the number of the sessions that ListByUserID returns, and both leave the
    -- same ids to be cleaned up.
    pub count-list_by_user_id :
        (user_id : Text)
        → All IsSession (server.smembers (user_sessions_key st user_id) s)
        → (sessions : List Session) × ((stale : Stale) × (list_by_user_id server codec st delivered
                delivered user_id s
              ≡ ok (sessions, stale))
            × (count server codec st delivered delivered user_id s ≡ ok (length sessions, stale)))
    unfolding list_by_user_id count
    count-list_by_user_id user_id h =
        members_counted delivered delivered (server.smembers (user_sessions_key st user_id) s) refl
          refl h
