-- ===== src/Redis/Session/Made.antt =====
-- redis/session.go: how a CreateWithTTL that returns a session has run.
use txova_go_db.Prelude.{
  ℕ, ◌*◌, ◌<◌, ◌≡◌, ◌≢◌, refl, sym, ap, ◌∙◌, ◌⊎◌, inl, inr, List, [], ◌∷◌, Result, ok, err,
  Bool-cases, subst, arith,
}
use txova_go_db.Prelude.Int.{ℤ, pos, negsuc, ◌≤ℤ◌, ◌<ℤ◌, ltb_ℤ, leb_ℤ}
use txova_go_db.Text.{Text}
use txova_go_db.Redis.Errors.{Error}
use txova_go_db.Redis.Json.{Codec}
use txova_go_db.Redis.Server.{Fault, delivered, refused, lost, call}
use txova_go_db.Redis.Keyspace.{Delivery, whole, cut, run_all, Keyspace}
use txova_go_db.Redis.Session.{
  Session, SessionStore, SessionCreateOption, user_sessions_key, generate_session_id, apply_option,
  apply_options, new_session, index_ttl, create_commands, create_encoded, create_with_id,
  create_with_ttl,
}

apply_option-keeps :
    (opt : SessionCreateOption) (session : Session)
    → ((apply_option opt session).id ≡ session.id)
      × ((apply_option opt session).user_id ≡ session.user_id)
apply_option-keeps (SessionCreateOption.with_device_id t) session = (refl, refl)
apply_option-keeps (SessionCreateOption.with_device_info t) session = (refl, refl)
apply_option-keeps (SessionCreateOption.with_ip_address t) session = (refl, refl)
apply_option-keeps (SessionCreateOption.with_session_data t) session = (refl, refl)

apply_options-keeps :
    (opts : List SessionCreateOption) (session : Session)
    → ((apply_options opts session).id ≡ session.id)
      × ((apply_options opts session).user_id ≡ session.user_id)
unfolding apply_options
apply_options-keeps [] session = (refl, refl)
apply_options-keeps (opt ∷ opts) session =
    let (i, u) = apply_options-keeps opts (apply_option opt session) in
    let (i', u') = apply_option-keeps opt session in (i ∙ i', u ∙ u')

-- A later reply of TTL against an earlier one, by what they mean: a key that does not expire, which
-- is -1, outlasts all others, and nothing else outlasts it.
abbrev pub Outlasts : ℤ → ℤ → Type 0
Outlasts later earlier = (later ≡ negsuc 0) ⊎ ((earlier ≢ negsuc 0) × (earlier ≤ℤ later))

-- As a number, the time to live of the index is at least what it was, and the session's.
pub index_ttl-bounds :
    (ttl current : ℤ)
    → pos 0 <ℤ ttl
    → (ttl ≤ℤ index_ttl ttl current) × (current ≤ℤ index_ttl ttl current)
unfolding index_ttl
index_ttl-bounds ttl current h = elim (Bool-cases (ltb_ℤ (pos 0) current)) [
  | inr old ↦ rw old (omega arith, ground arith)
  | inl positive ↦ elim (Bool-cases (ltb_ℤ ttl current)) [
    | inl longer ↦ rw (positive, longer) (ground arith, omega arith)
    | inr shorter ↦ rw (positive, shorter) (omega arith, ground arith)
  ]
]

-- In whole seconds it is one of the two.
pub index_ttl-seconds :
    (m : ℕ) (current : ℤ)
    → (current ≡ negsuc 0) ⊎ (current ≡ negsuc 1) ⊎ ((n : ℕ) × (current ≡ pos (n * 1000000000)))
    → 0 < m
    → (n : ℕ) × (0 < n) × (index_ttl (pos (m * 1000000000)) current ≡ pos (n * 1000000000))
unfolding index_ttl
index_ttl-seconds m current (inl none_set) h = (m, h, rw none_set refl)
index_ttl-seconds m current (inr (inl no_key)) h = (m, h, rw no_key refl)
index_ttl-seconds m current (inr (inr (n, e))) h =
    rw e (elim (Bool-cases (ltb_ℤ (pos 0) (pos (n * 1000000000)))) [
      | inr old ↦ (m, h, rw old refl)
      | inl positive ↦ elim (Bool-cases (ltb_ℤ (pos (m * 1000000000)) (pos (n * 1000000000)))) [
        | inl longer ↦ (n, ground arith, rw (positive, longer) refl)
        | inr shorter ↦ (m, h, rw (positive, shorter) refl)
      ]
    ])

module _ (server : Keyspace) (codec : Codec Session) where
  open server use {Store}
  open codec use {marshal, unmarshal}

  reply-ok :
      {A : Type 0} (fault : Fault) (read : Store → A) (s : Store) {a : A}
      → (call fault (λ x. (read x, x)) s).0 ≡ ok a
      → read s ≡ a
  reply-ok delivered read s h = cc
  reply-ok (refused e) read s h = cc
  reply-ok (lost e) read s h = cc

  -- What a session that CreateWithTTL returns says of the run.
  pub record Made (st : SessionStore) (random : Result Error (List ℕ)) (user_id : Text) (ttl : ℤ)
      (s s' : Store) (session : Session) : Type 0 where
    pub text : Text
    pub encoded : marshal session ≡ ok text
    pub named : generate_session_id random ≡ ok session.id
    pub owned : session.user_id ≡ user_id
    pub positive : pos 0 <ℤ ttl
    pub ran :
        s'
        ≡ run_all
            (create_commands server codec st session user_id text ttl
              (server.ttl (user_sessions_key st user_id) s))
            s

  create_encoded-ok :
      (st : SessionStore) (delivery : Delivery) (session : Session) (user_id : Text) (ttl : ℤ)
      (encoded : Result Error Text) (current : Result Error ℤ) (s : Store) {session' : Session}
      → (create_encoded server codec st delivery session user_id ttl encoded current s).0
        ≡ ok session'
      → (session ≡ session')
        × ((text : Text) × (encoded ≡ ok text)
            × ((n : ℤ) × (current ≡ ok n)
                × ((create_encoded server codec st delivery session user_id ttl encoded current s).1
                    ≡ run_all (create_commands server codec st session user_id text ttl n) s)))
  unfolding create_encoded
  create_encoded-ok st delivery session user_id ttl (err e) current s h = cc
  create_encoded-ok st delivery session user_id ttl (ok text) (err e) s h = cc
  create_encoded-ok st whole session user_id ttl (ok text) (ok n) s h =
      (cc, (text, refl, (n, refl, refl)))
  create_encoded-ok st (cut k e) session user_id ttl (ok text) (ok n) s h = cc

  create_with_id-ok :
      (st : SessionStore) (fault : Fault) (delivery : Delivery) (now : ℤ) (user_id : Text) (ttl : ℤ)
      (opts : List SessionCreateOption) (random : Result Error (List ℕ)) (made : Result Error Text)
      (s : Store) {session : Session}
      → generate_session_id random ≡ made
      → pos 0 <ℤ ttl
      → (create_with_id server codec st fault delivery now user_id ttl opts made s).0 ≡ ok session
      → Made st random user_id ttl s
          (create_with_id server codec st fault delivery now user_id ttl opts made s).1
          session
  unfolding create_with_id
  create_with_id-ok st fault delivery now user_id ttl opts random (err e) s g p h = cc
  create_with_id-ok st fault delivery now user_id ttl opts random (ok i) s {session} g p h =
      let new = apply_options opts (new_session i user_id now ttl) in
      let current = (call fault (λ x. (server.ttl (user_sessions_key st user_id) x, x)) s).0 in
      let (same, (text, encoded, (n, read, ran))) =
        create_encoded-ok st delivery new user_id ttl (marshal new) current s h in
      let (keeps_id, keeps_user) = apply_options-keeps opts (new_session i user_id now ttl) in
      let value = reply-ok fault (server.ttl (user_sessions_key st user_id)) s read in
      record {
        text = text;
        encoded = subst (λ x. marshal x ≡ ok text) same encoded;
        named = g ∙ ap ok (sym keeps_id ∙ ap (λ (x : Session). x.id) same);
        owned = sym (ap (λ (x : Session). x.user_id) same) ∙ keeps_user;
        positive = p;
        ran =
            ran
            ∙ ap (λ x. run_all (create_commands server codec st x user_id text ttl n) s) same
            ∙ ap (λ k. run_all (create_commands server codec st session user_id text ttl k) s)
                (sym value);
      }

  pub create_with_ttl-Made :
      (st : SessionStore) (random : Result Error (List ℕ)) (fault : Fault) (delivery : Delivery)
      (now : ℤ) (user_id : Text) (ttl : ℤ) (opts : List SessionCreateOption) (s : Store)
      {session : Session}
      → (create_with_ttl server codec st random fault delivery now user_id ttl opts s).0
        ≡ ok session
      → Made st random user_id ttl s
          (create_with_ttl server codec st random fault delivery now user_id ttl opts s).1
          session
  unfolding create_with_ttl
  create_with_ttl-Made st random fault delivery now user_id ttl opts s h =
      elim (Bool-cases (leb_ℤ ttl (pos 0))) [
        | inl bad ↦ let refused_ttl = rw bad at h in cc
        | inr good ↦
            let p : pos 0 <ℤ ttl = ground arith in
            rw good (
              create_with_id-ok st fault delivery now user_id ttl opts random
                (generate_session_id random) s refl p (rw good at h))
      ]
