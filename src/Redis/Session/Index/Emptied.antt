-- ===== src/Redis/Session/Index/Emptied.antt =====
-- redis/session.go: what DeleteByUserID leaves of sessions and indices.
use txova_go_db.Prelude.{
  ℕ, ◌+◌, ◌≡◌, ◌≢◌, refl, sym, ap, ◌∙◌, ◌⊎◌, inl, inr, true, false, List, [], ◌∷◌, ◌++◌, none, ok,
  err, map, Bool-cases, arith, All,
}
use txova_go_db.Text.{Text, codes, text_eq, Lacks}
use txova_go_db.Text.Equality.{text_eq_refl, text_eq_iff}
use txova_go_db.Text.Members.{
  mem, mem-last, mem-append, IsDistinct, total, total-append, text_eq-false, mem-cons-false,
}
use txova_go_db.Redis.Errors.Classify.{from_redis_error-nil}
use txova_go_db.Redis.Errors.Kinds.{is_not_found, not_found}
use txova_go_db.Redis.Json.{Codec}
use txova_go_db.Redis.Server.{Fault, delivered}
use txova_go_db.Redis.Keyspace.{Keyspace, KeyLaws}
use txova_go_db.Redis.Session.{
  Session, SessionStore, session_key, user_sessions_key, get_error, read_reply, read_session,
}
use txova_go_db.Redis.Session.Ids.{session_key-apart, session_key_injective}
use txova_go_db.Redis.Session.Index.{
  delete_members, delete_by_user_id, list_members, list_by_user_id,
}

-- Adding one more key to a list without repetitions.
IsDistinct-snoc :
    (ks : List Text) (k : Text) → IsDistinct ks → mem k ks ≡ false → IsDistinct (ks ++ (k ∷ []))
unfolding mem
IsDistinct-snoc [] k d h = (refl, tt)
IsDistinct-snoc (j ∷ ks) k (new, d) h =
    let (ne, later) = mem-cons-false k j ks h in
    let other = text_eq-false j k (λ e. ne (sym e)) in
    (mem-append j ks (k ∷ []) ∙ rw (new, other) refl, IsDistinct-snoc ks k d later)

mem-session_key :
    (st : SessionStore) (id : Text) (ids : List Text)
    → mem (session_key st id) (map (session_key st) ids) ≡ mem id ids
unfolding mem
mem-session_key st id [] = refl
mem-session_key st id (j ∷ ids) = rw (mem-session_key st id ids) (elim (Bool-cases (text_eq id j)) [
  | inl e ↦ rw (e, (text_eq_iff id j).0 e, text_eq_refl (session_key st j)) refl
  | inr e ↦
      let ne =
        text_eq-false (session_key st id) (session_key st j)
          (λ q. let p = (text_eq_iff id j).1 (session_key_injective st id j q) in cc) in
      rw (e, ne) refl
])

session_keys-IsDistinct :
    (st : SessionStore) (ids : List Text) → IsDistinct ids → IsDistinct (map (session_key st) ids)
session_keys-IsDistinct st [] d = tt
session_keys-IsDistinct st (id ∷ ids) (new, d) =
    (mem-session_key st id ids ∙ new, session_keys-IsDistinct st ids d)

index-apart :
    (st : SessionStore) (user_id : Text) (ids : List Text)
    → All (Lacks b':') ids
    → mem (user_sessions_key st user_id) (map (session_key st) ids) ≡ false
unfolding mem
index-apart st user_id [] h = refl
index-apart st user_id (id ∷ ids) (colon, h) =
    let ne =
      text_eq-false (user_sessions_key st user_id) (session_key st id)
        (λ e. session_key-apart st id user_id colon (sym e)) in
    rw ne (index-apart st user_id ids h)

total-map :
    (f : Text → ℕ) (g : Text → Text) (ks : List Text) → total f (map g ks) ≡ total (λ k. f (g k)) ks
total-map f g [] = refl
total-map f g (k ∷ ks) = ap (λ n. f (g k) + n) (total-map f g ks)

module _ (server : Keyspace) (codec : Codec Session) (laws : KeyLaws server) where
  open server use {Store, nil_text}
  open codec use {unmarshal}
  open laws use {del_gone, del_other, del_count, srem_mem, srem_get, smembers_distinct, exists_iff}

  read_reply-missing :
      read_reply server codec (ok none) ≡ err (not_found (codes "session not found"))
  unfolding read_reply get_error is_not_found
  read_reply-missing = rw (from_redis_error-nil nil_text) refl

  pub read_missing :
      (st : SessionStore) (id : Text) (s : Store)
      → server.get (session_key st id) s ≡ none
      → read_session server codec st delivered id s ≡ err (not_found (codes "session not found"))
  unfolding read_session
  read_missing st id s h = rw h read_reply-missing

  delete_members-deleted :
      (st : SessionStore) (user_id : Text) (ids : List Text) (s : Store)
      → ids ≢ []
      → delete_members server codec st delivered user_id (ok ids) s ≡ (
        ok (server.del (map (session_key st) ids ++ (user_sessions_key st user_id ∷ [])) s).0,
        (server.del (map (session_key st) ids ++ (user_sessions_key st user_id ∷ [])) s).1,
      )
  unfolding delete_members
  delete_members-deleted st user_id [] s h = absurd (h refl)
  delete_members-deleted st user_id (id ∷ ids) s h = refl

  empty-mem : (id : Text) → mem id [] ≡ true → ⊥
  unfolding mem
  empty-mem id h = cc

  list_members-nil :
      (st : SessionStore) (fault : Fault) (s : Store)
      → list_members server codec st fault (ok []) s ≡ ok ([], [])
  unfolding list_members
  list_members-nil st fault s = refl

  -- A list of ids is empty or not.
  ids-cases : (ids : List Text) → (ids ≡ []) ⊎ (ids ≢ [])
  ids-cases [] = inl refl
  ids-cases (id ∷ ids) = inr (λ e. cc)

  -- Behind a DeleteByUserID whose commands are delivered, ListByUserID finds nothing for the user,
  -- and none of the sessions that were in the index is left.
  pub delete_by_user_id-list_by_user_id :
      (st : SessionStore) (user_id id : Text) (fault : Fault) (s : Store)
      → mem id (server.smembers (user_sessions_key st user_id) s) ≡ true
      → (list_by_user_id server codec st delivered fault user_id
            (delete_by_user_id server codec st delivered delivered user_id s).1
          ≡ ok ([], []))
        × (read_session server codec st delivered id
              (delete_by_user_id server codec st delivered delivered user_id s).1
            ≡ err (not_found (codes "session not found")))
  unfolding delete_by_user_id list_by_user_id
  delete_by_user_id-list_by_user_id st user_id id fault s m =
      let index = user_sessions_key st user_id in
      let ids = server.smembers index s in
      let keys = map (session_key st) ids ++ (index ∷ []) in
      let filled : ids ≢ [] = λ e. empty-mem id (rw e at m) in
      let (_, empty) = del_gone index keys s (mem-last (map (session_key st) ids) index) in
      let listed : mem (session_key st id) keys ≡ true =
        mem-append (session_key st id) (map (session_key st) ids) (index ∷ [])
        ∙ rw (mem-session_key st id ids, m) refl in
      let (gone, _) = del_gone (session_key st id) keys s listed in
      rw (delete_members-deleted st user_id ids s filled) (
        rw empty (list_members-nil st fault (server.del keys s).1),
        read_missing st id (server.del keys s).1 gone,
      )

  -- The count that DeleteByUserID returns is, if there are ids in the index and none has a colon,
  -- one more than the number of sessions that it deletes: it counts the index, too.
  pub delete_by_user_id-count :
      (st : SessionStore) (user_id : Text) (s : Store)
      → server.smembers (user_sessions_key st user_id) s ≢ []
      → All (Lacks b':') (server.smembers (user_sessions_key st user_id) s)
      → (delete_by_user_id server codec st delivered delivered user_id s).0
        ≡ ok (
            total
              (λ id. server.exists (session_key st id) s)
              (server.smembers (user_sessions_key st user_id) s)
            + 1)
  unfolding delete_by_user_id
  delete_by_user_id-count st user_id s filled colons =
      let index = user_sessions_key st user_id in
      let ids = server.smembers index s in
      let keys = map (session_key st) ids in
      let once =
        IsDistinct-snoc keys index (session_keys-IsDistinct st ids (smembers_distinct index s))
          (index-apart st user_id ids colons) in
      let counted = del_count (keys ++ (index ∷ [])) s once in
      let sum = total-append (λ k. server.exists k s) keys (index ∷ []) in
      let each = total-map (λ k. server.exists k s) (session_key st) ids in
      let one : server.exists index s ≡ 1 = elim (exists_iff index s) [
        | inl (_, _, empty) ↦ absurd (filled empty)
        | inr (e, _) ↦ e
      ] in
      rw (delete_members-deleted st user_id ids s filled)
        (ap ok (omega (arith, counted, sum, each, one)))
