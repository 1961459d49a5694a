-- ===== src/Redis/Cache/RoundTrip.antt =====
-- redis/cache.go: what Get returns behind Set, GetOrSet and Delete.
use txova_go_db.Prelude.{
  ◌≡◌, ◌≢◌, refl, sym, ap, ◌∙◌, inl, inr, List, [], ◌∷◌, Option, none, some, Result, ok, err, map,
  ◌||◌, Bool-cases, if◌then◌else◌,
}
use txova_go_db.Prelude.Int.{ℤ}
use txova_go_db.Text.{Text, text_eq}
use txova_go_db.Text.Equality.{text_eq_iff, text_eq_refl, text_eq-ne}
use txova_go_db.Text.Members.{mem, text_eq-false}
use txova_go_db.Redis.Errors.{Error}
use txova_go_db.Redis.Errors.Classify.{from_redis_error-nil}
use txova_go_db.Redis.Errors.Kinds.{is_not_found}
use txova_go_db.Redis.Server.{Fault, delivered, refused, lost}
use txova_go_db.Redis.Keyspace.{Keyspace, KeyLaws}
use txova_go_db.Redis.Cache.{
  Cache, prefix_key, get_answer, get_error, get, set_with_ttl, delete, after_compute, after_get,
  get_or_set_with_ttl,
}
use txova_go_db.Redis.Cache.Keys.{prefix_key_injective}

module _ (server : Keyspace) (laws : KeyLaws server) where
  open server use {Store, nil_text, bytes}
  open laws use {bytes_value, set_get, set_other, del_gone, del_other}

  bytes-nonempty : (v : Text) → v ≢ [] → bytes v ≡ some v
  bytes-nonempty v h = elim (bytes_value v) [ inl e ↦ e | inr (empty, _) ↦ absurd (h empty) ]

  pub get_answer-miss : get_answer server (ok none) ≡ ok none
  unfolding get_answer get_error is_not_found
  get_answer-miss = rw (from_redis_error-nil nil_text) refl

  pub get_stored :
      (c : Cache) (key v : Text) (s : Store)
      → v ≢ []
      → server.get (prefix_key c key) s ≡ some v
      → get server c delivered key s ≡ ok (some v)
  unfolding get get_answer
  get_stored c key v s h e = rw e (ap ok (bytes-nonempty v h))

  pub get_missing :
      (c : Cache) (key : Text) (s : Store)
      → server.get (prefix_key c key) s ≡ none
      → get server c delivered key s ≡ ok none
  unfolding get
  get_missing c key s e = rw e get_answer-miss

  -- The answer of Get rests on the value of the key alone.
  get_same :
      (c : Cache) (fault : Fault) (key : Text) (s s' : Store)
      → server.get (prefix_key c key) s' ≡ server.get (prefix_key c key) s
      → get server c fault key s' ≡ get server c fault key s
  unfolding get
  get_same c delivered key s s' e = ap (λ o. get_answer server (ok o)) e
  get_same c (refused x) key s s' e = refl
  get_same c (lost x) key s s' e = refl

  pub set_with_ttl-stored :
      (c : Cache) (fault : Fault) (key v : Text) (ttl : ℤ) (s : Store)
      → (set_with_ttl server c fault key v ttl s).0 ≡ none
      → (set_with_ttl server c fault key v ttl s).1 ≡ server.set (prefix_key c key) v ttl s
  unfolding set_with_ttl
  set_with_ttl-stored c delivered key v ttl s h = refl
  set_with_ttl-stored c (refused e) key v ttl s h = cc
  set_with_ttl-stored c (lost e) key v ttl s h = cc

  -- When SetWithTTL with a value that is not empty returns no error, a Get of a key that reaches the
  -- server returns the value for that key, and what it returned before for any other key.
  pub set_with_ttl-get :
      (c : Cache) (fault : Fault) (key v : Text) (ttl : ℤ) (s : Store) (k : Text)
      → v ≢ []
      → (set_with_ttl server c fault key v ttl s).0 ≡ none
      → get server c delivered k (set_with_ttl server c fault key v ttl s).1
        ≡ (if text_eq k key then ok (some v) else get server c delivered k s)
  set_with_ttl-get c fault key v ttl s k h done =
      let after = set_with_ttl-stored c fault key v ttl s done in
      elim (Bool-cases (text_eq k key)) [
        | inl e ↦
            let stored = get_stored c key v _ h (set_get (prefix_key c key) v ttl s) in
            rw (e, after, (text_eq_iff k key).0 e) stored
        | inr e ↦
            rw (e, after)
              (get_same c delivered k s _
                (set_other (prefix_key c key) (prefix_key c k) v ttl s
                  (λ q. text_eq-ne k key e (prefix_key_injective c k key q))).0)
      ]

  delete-deleted :
      (c : Cache) (fault : Fault) (keys : List Text) (s : Store)
      → keys ≢ []
      → (delete server c fault keys s).0 ≡ none
      → (delete server c fault keys s).1 ≡ (server.del (map (prefix_key c) keys) s).1
  unfolding delete
  delete-deleted c fault [] s ne h = absurd (ne refl)
  delete-deleted c delivered (k ∷ keys) s ne h = refl
  delete-deleted c (refused e) (k ∷ keys) s ne h = cc
  delete-deleted c (lost e) (k ∷ keys) s ne h = cc

  pub mem-prefix_key :
      (c : Cache) (k : Text) (keys : List Text)
      → mem (prefix_key c k) (map (prefix_key c) keys) ≡ mem k keys
  unfolding mem
  mem-prefix_key c k [] = refl
  mem-prefix_key c k (j ∷ keys) =
      rw (mem-prefix_key c k keys) (ap (λ b. b || mem k keys) (text_eq-prefix_key c k j))
    where
      text_eq-prefix_key :
          (c : Cache) (k j : Text) → text_eq (prefix_key c k) (prefix_key c j) ≡ text_eq k j
      text_eq-prefix_key c k j = elim (Bool-cases (text_eq k j)) [
        | inl e ↦ rw ((text_eq_iff k j).0 e) (text_eq_refl (prefix_key c j) ∙ sym (text_eq_refl j))
        | inr e ↦ text_eq-false _ _ (λ q. text_eq-ne k j e (prefix_key_injective c k j q)) ∙ sym e
      ]

  delete-get_some :
      (c : Cache) (fault : Fault) (j : Text) (keys : List Text) (s : Store) (k : Text)
      → (delete server c fault (j ∷ keys) s).0 ≡ none
      → get server c delivered k (delete server c fault (j ∷ keys) s).1
        ≡ (if mem k (j ∷ keys) then ok none else get server c delivered k s)
  delete-get_some c fault j keys s k h =
      let after = delete-deleted c fault (j ∷ keys) s (λ e. cc) h in
      let where_k = mem-prefix_key c k (j ∷ keys) in
      let key = prefix_key c k in
      let all = map (prefix_key c) (j ∷ keys) in
      elim (Bool-cases (mem k (j ∷ keys))) [
        | inl m ↦ rw (m, after) (get_missing c k _ (del_gone key all s (where_k ∙ m)).0)
        | inr m ↦ rw (m, after) (get_same c delivered k s _ (del_other key all s (where_k ∙ m)).0)
      ]

  delete-get_none :
      (c : Cache) (fault : Fault) (s : Store) (k : Text)
      → get server c delivered k (delete server c fault [] s).1
        ≡ (if mem k [] then ok none else get server c delivered k s)
  unfolding mem delete
  delete-get_none c fault s k = refl

  -- When Delete of some keys returns no error, a Get that reaches the server is a miss for each of
  -- them, and returns what it returned before for any other key.
  pub delete-get :
      (c : Cache) (fault : Fault) (keys : List Text) (s : Store) (k : Text)
      → (delete server c fault keys s).0 ≡ none
      → get server c delivered k (delete server c fault keys s).1
        ≡ (if mem k keys then ok none else get server c delivered k s)
  delete-get c fault [] s k h = delete-get_none c fault s k
  delete-get c fault (j ∷ keys) s k h = delete-get_some c fault j keys s k h

  after_compute-stored :
      (c : Cache) (key : Text) (ttl : ℤ) (answer : Result Error (Option Text)) (s : Store)
      {v : Text}
      → v ≢ []
      → (after_compute server c delivered key ttl answer s).0 ≡ ok (some v)
      → get server c delivered key (after_compute server c delivered key ttl answer s).1
        ≡ ok (some v)
  unfolding after_compute set_with_ttl
  after_compute-stored c key ttl (err e) s h got = cc
  after_compute-stored c key ttl (ok none) s h got = cc
  after_compute-stored c key ttl (ok (some w)) s {v} h got =
      let same : w ≡ v = cc in get_stored c key v _ h (rw same (set_get (prefix_key c key) v ttl s))

  -- An answer of GetOrSetWithTTL is one that the cache had, or one that was computed and stored.
  get_or_set-stored :
      (c : Cache) (fault : Fault) (key : Text) (ttl : ℤ)
      (compute : Store → Result Error (Option Text) × Store) (s : Store)
      (answer : Result Error (Option Text)) {v : Text}
      → v ≢ []
      → get server c delivered key s ≡ answer
      → (after_get server c delivered key ttl compute answer s).0 ≡ ok (some v)
      → get server c delivered key (after_get server c delivered key ttl compute answer s).1
        ≡ ok (some v)
  unfolding after_get
  get_or_set-stored c fault key ttl compute s (err e) h found got = cc
  get_or_set-stored c fault key ttl compute s (ok (some w)) h found got = found ∙ got
  get_or_set-stored c fault key ttl compute s (ok none) h found got =
      after_compute-stored c key ttl (compute s).0 (compute s).1 h got

  -- Behind a GetOrSetWithTTL that reached the server and returned a value that is not empty, the
  -- next one returns that value and leaves the store as it is, whatever it is given to compute.
  pub get_or_set_with_ttl-cached :
      (c : Cache) (fault : Fault) (key : Text) (ttl ttl' : ℤ)
      (compute compute' : Store → Result Error (Option Text) × Store) (s : Store) {v : Text}
      → v ≢ []
      → (get_or_set_with_ttl server c delivered delivered key ttl compute s).0 ≡ ok (some v)
      → get_or_set_with_ttl server c delivered fault key ttl' compute'
          (get_or_set_with_ttl server c delivered delivered key ttl compute s).1
        ≡ (ok (some v), (get_or_set_with_ttl server c delivered delivered key ttl compute s).1)
  unfolding get_or_set_with_ttl after_get
  get_or_set_with_ttl-cached c fault key ttl ttl' compute compute' s h got =
      let stored =
        get_or_set-stored c fault key ttl compute s (get server c delivered key s) h refl got in
      rw stored refl
