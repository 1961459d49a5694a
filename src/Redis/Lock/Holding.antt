-- ===== src/Redis/Lock/Holding.antt =====
-- redis/lock.go: what the operations of others do to a key that is held.
use txova_go_db.Prelude.{
  ℕ, ◌≡◌, ◌≢◌, refl, sym, ap, ◌∙◌, ◌⊎◌, inl, inr, some, err, Bool-cases, Option-cases, subst,
}
use txova_go_db.Prelude.Int.{ℤ, pos, ◌<ℤ◌}
use txova_go_db.Text.{Text, codes, text_eq}
use txova_go_db.Text.Equality.{text_eq_iff}
use txova_go_db.Redis.Server.{Fault, delivered, refused, lost, call, Server, Laws}
use txova_go_db.Redis.Lock.{
  Lock, Locker, lock_key, lock_failed, milliseconds, acquire_answer, acquire_with_ttl, if_owner,
  owner_only, release_script, extend_script, release, extend, verify,
}

-- The lock is one of another key or of another owner.
abbrev pub IsForeign : Text → Text → Lock → Type 0
IsForeign k v lock = (lock.key ≢ k) ⊎ (lock.owner ≢ v)

module _ (server : Server) (laws : Laws server) where
  open server use {Store, lookup, set_nx, del, pexpire}
  open laws use {set_nx_held, set_nx_other, del_other, pexpire_other, pexpire_held}

  pub call-keeps :
      {A : Type 0} (k v : Text) (fault : Fault) (command : Store → A × Store) (s : Store)
      → lookup k s ≡ some v
      → lookup k (command s).1 ≡ some v
      → lookup k (call fault command s).1 ≡ some v
  call-keeps k v delivered command s h h' = h'
  call-keeps k v (refused e) command s h h' = h
  call-keeps k v (lost e) command s h h' = h'

  set_nx-keeps :
      (k v key owner : Text) (ttl : ℤ) (s : Store)
      → lookup k s ≡ some v
      → lookup k (set_nx key owner ttl s).1 ≡ some v
  set_nx-keeps k v key owner ttl s h = elim (Bool-cases (text_eq key k)) [
    | inl e ↦
        let same : key ≡ k = (text_eq_iff key k).0 e in rw (same, set_nx_held k owner v ttl s h) h
    | inr e ↦
        let ne : k ≢ key = λ q. (let t = (text_eq_iff key k).1 (sym q) in cc) in
        set_nx_other key k owner ttl s ne ∙ h
  ]

  -- A script of a foreign lock changes nothing of the key.
  if_owner-keeps :
      (k v : Text) (lock : Lock) (command : Store → ℕ × Store) (s : Store)
      → IsForeign k v lock
      → (lock.key ≢ k → lookup k (command s).1 ≡ lookup k s)
      → lookup k s ≡ some v
      → lookup k (if_owner server lock.key lock.owner command s).1 ≡ some v
  unfolding if_owner
  if_owner-keeps k v lock command s foreign other h = elim (Option-cases (lookup lock.key s)) [
    | inl missing ↦ rw (if_owner, missing, owner_only) h
    | inr (w, found) ↦ elim (Bool-cases (text_eq w lock.owner)) [
      | inr e ↦ rw (if_owner, found, owner_only, e) h
      | inl e ↦
          let owned : w ≡ lock.owner = (text_eq_iff w lock.owner).0 e in
          let ne : lock.key ≢ k = elim foreign [
            | inl n ↦ n
            | inr n ↦ λ q.
                let here : lookup k s ≡ some w = subst (λ x. lookup x s ≡ some w) q found in n (cc)
          ] in
          rw (if_owner, found, owner_only, e) (other ne ∙ h)
    ]
  ]

  acquire_with_ttl-keeps :
      (k v : Text) (l : Locker) (owner : Text) (now : ℤ) (fault : Fault) (resource : Text) (ttl : ℤ)
      (s : Store)
      → lookup k s ≡ some v
      → lookup k (acquire_with_ttl server l owner now fault resource ttl s).1 ≡ some v
  unfolding acquire_with_ttl
  acquire_with_ttl-keeps k v l owner now fault resource ttl s h =
      call-keeps k v fault (set_nx (lock_key l resource) owner ttl) s h
        (set_nx-keeps k v (lock_key l resource) owner ttl s h)

  release-keeps :
      (k v : Text) (fault : Fault) (lock : Lock) (s : Store)
      → IsForeign k v lock
      → lookup k s ≡ some v
      → lookup k (release server fault lock s).1 ≡ some v
  unfolding release release_script
  release-keeps k v fault lock s foreign h = elim (Bool-cases lock.acquired) [
    | inr e ↦ rw e h
    | inl e ↦ rw e (
        call-keeps k v fault (release_script server lock.key lock.owner) s h (
          if_owner-keeps k v lock (del lock.key) s foreign
            (λ n. del_other lock.key k s (λ q. n (sym q))) h))
  ]

  renewed-keeps :
      (k v : Text) (lock : Lock) (ms : ℤ) (s : Store)
      → (IsForeign k v lock ⊎ (pos 0 <ℤ ms))
      → lookup k s ≡ some v
      → lookup k (extend_script server lock.key lock.owner ms s).1 ≡ some v
  unfolding extend_script if_owner
  renewed-keeps k v lock ms s (inl foreign) h =
      if_owner-keeps k v lock (pexpire lock.key ms) s foreign
        (λ n. pexpire_other lock.key k ms s (λ q. n (sym q))) h
  renewed-keeps k v lock ms s (inr long) h = elim (Bool-cases (text_eq lock.key k)) [
    | inr e ↦
        if_owner-keeps k v lock (pexpire lock.key ms) s
          (inl (λ q. (let t = (text_eq_iff lock.key k).1 q in cc)))
          (λ n. pexpire_other lock.key k ms s (λ q. n (sym q))) h
    | inl e ↦
        let same : lock.key ≡ k = (text_eq_iff lock.key k).0 e in
        elim (Bool-cases (text_eq v lock.owner)) [
          | inl o ↦ rw (same, if_owner, h, owner_only, o) (pexpire_held k v ms s long h).1
          | inr o ↦ rw (same, if_owner, h, owner_only, o) h
        ]
  ]

  extend-keeps :
      (k v : Text) (now : ℤ) (fault : Fault) (ttl : ℤ) (lock : Lock) (s : Store)
      → (IsForeign k v lock ⊎ (pos 0 <ℤ milliseconds ttl))
      → lookup k s ≡ some v
      → lookup k (extend server now fault ttl lock s).1 ≡ some v
  unfolding extend
  extend-keeps k v now fault ttl lock s allowed h = elim (Bool-cases lock.acquired) [
    | inr e ↦ rw e h
    | inl e ↦ rw e (
        call-keeps k v fault (extend_script server lock.key lock.owner (milliseconds ttl)) s h
          (renewed-keeps k v lock (milliseconds ttl) s allowed h))
  ]

  verify-keeps :
      (k v : Text) (fault : Fault) (lock : Lock) (s : Store)
      → lookup k s ≡ some v
      → lookup k (verify server fault lock s).1 ≡ some v
  unfolding verify
  verify-keeps k v fault lock s h = elim (Bool-cases lock.acquired) [
    | inr e ↦ rw e h
    | inl e ↦ rw e (call-keeps k v fault (λ st. (lookup lock.key st, st)) s h h)
  ]

  -- What may happen to the store while `v` holds the key `k`: anyone tries to acquire any lock,
  -- verifies one, releases one that is not this one, or extends one that is not this one or by at
  -- least a millisecond; every call with any fault of the connection.
  pub data Step (k v : Text) (s s' : Store) : Type 0 where
    acquires :
        (l : Locker) (owner : Text) (now : ℤ) (fault : Fault) (resource : Text) (ttl : ℤ)
        → s' ≡ (acquire_with_ttl server l owner now fault resource ttl s).1
        → Step k v s s'
    releases :
        (fault : Fault) (lock : Lock)
        → IsForeign k v lock
        → s' ≡ (release server fault lock s).1
        → Step k v s s'
    extends :
        (now : ℤ) (fault : Fault) (ttl : ℤ) (lock : Lock)
        → (IsForeign k v lock ⊎ (pos 0 <ℤ milliseconds ttl))
        → s' ≡ (extend server now fault ttl lock s).1
        → Step k v s s'
    verifies : (fault : Fault) (lock : Lock) → s' ≡ (verify server fault lock s).1 → Step k v s s'

  pub data Steps (k v : Text) : Store → Store → Type 0 where
    start : (s : Store) → Steps k v s s
    step : {s s' s'' : Store} → Step k v s s' → Steps k v s' s'' → Steps k v s s''

  Step-keeps :
      (k v : Text) (s s' : Store) → Step k v s s' → lookup k s ≡ some v → lookup k s' ≡ some v
  Step-keeps k v s s' (acquires l owner now fault resource ttl e) h =
      ap (lookup k) e ∙ acquire_with_ttl-keeps k v l owner now fault resource ttl s h
  Step-keeps k v s s' (releases fault lock foreign e) h =
      ap (lookup k) e ∙ release-keeps k v fault lock s foreign h
  Step-keeps k v s s' (extends now fault ttl lock allowed e) h =
      ap (lookup k) e ∙ extend-keeps k v now fault ttl lock s allowed h
  Step-keeps k v s s' (verifies fault lock e) h = ap (lookup k) e ∙ verify-keeps k v fault lock s h

  Steps-keeps :
      (k v : Text) {s s' : Store} → Steps k v s s' → lookup k s ≡ some v → lookup k s' ≡ some v
  Steps-keeps k v (start s) h = h
  Steps-keeps k v {s} (step {s' = s1} a rest) h = Steps-keeps k v rest (Step-keeps k v s s1 a h)

  pub acquire_with_ttl-held :
      (l : Locker) (owner v : Text) (now : ℤ) (resource : Text) (ttl : ℤ) (s : Store)
      → lookup (lock_key l resource) s ≡ some v
      → acquire_with_ttl server l owner now delivered resource ttl s
        ≡ (err (lock_failed (codes "lock is already held by another owner")), s)
  unfolding acquire_with_ttl acquire_answer
  acquire_with_ttl-held l owner v now resource ttl s h =
      rw (set_nx_held (lock_key l resource) owner v ttl s h) refl

  -- Mutual exclusion: for a server that does what its documentation says, once `v` holds the key of
  -- a resource, then after any steps of others, and until the key expires, `v` still holds it and
  -- every attempt that reaches the server fails with LockFailed and leaves the store as it is.
  pub acquire_with_ttl-excluded :
      (l : Locker) (v resource owner : Text) (now ttl : ℤ) {s s' : Store}
      → Steps (lock_key l resource) v s s'
      → lookup (lock_key l resource) s ≡ some v
      → (lookup (lock_key l resource) s' ≡ some v)
        × (acquire_with_ttl server l owner now delivered resource ttl s'
            ≡ (err (lock_failed (codes "lock is already held by another owner")), s'))
  acquire_with_ttl-excluded l v resource owner now ttl {s} {s'} steps h =
      let held = Steps-keeps (lock_key l resource) v steps h in
      (held, acquire_with_ttl-held l owner v now resource ttl s' held)
