-- ===== src/Redis/Keyspace.antt =====
-- The Redis server as the cache and the sessions use it: strings, sets and times to live, none of
-- which is in the repository, with what the documentation of the commands and of the client says.
pub mod Mapped
use txova_go_db.Prelude.{
  ℕ, zero, suc, ◌*◌, ◌≤◌, ◌<◌, ◌≡◌, ◌≢◌, ◌⊎◌, ◌↔◌, Bool, true, false, not, ◌&&◌, ◌||◌, List, [],
  ◌∷◌, Option, none, some, map,
}
use txova_go_db.Prelude.Int.{ℤ, pos, negsuc, ◌<ℤ◌}
use txova_go_db.Text.{Text, text_eq}
use txova_go_db.Text.Members.{mem, IsDistinct, total}
use txova_go_db.Redis.Errors.{Error}

-- A pipeline reaches the server as a whole and its replies come back, or the connection ends when
-- the server has run a number of its commands.
pub data Delivery : Type 0 where
  whole : Delivery
  cut : ℕ → Error → Delivery

-- The first commands of a pipeline, or all of them if there are fewer.
abbrev pub run_first : {S : Type 0} → ℕ → List (S → S) → S → S
run_first zero commands s = s
run_first (suc n) [] s = s
run_first (suc n) (command ∷ commands) s = run_first n commands (command s)

abbrev pub run_all : {S : Type 0} → List (S → S) → S → S
run_all [] s = s
run_all (command ∷ commands) s = run_all commands (command s)

-- `Exec` of a pipeline: its error and the store.
abbrev pub exec : {S : Type 0} → Delivery → List (S → S) → S → Option Error × S
exec whole commands s = (none, run_all commands s)
exec (cut n e) commands s = (some e, run_first n commands s)

-- The commands; times to live are in nanoseconds, as the client takes and returns them.
pub record Keyspace : Type 1 where
  pub Store : Type 0
  -- GET, with nothing for a missing key. A GET of a set, which the server answers with an error, is
  -- a call that is refused.
  pub get : Text → Store → Option Text
  pub mget : List Text → Store → List (Option Text)
  -- SET key value with a time to live.
  pub set : Text → Text → ℤ → Store → Store
  pub del : List Text → Store → ℕ × Store
  pub exists : Text → Store → ℕ
  -- TTL, which is -1 for a key that does not expire and -2 for a missing key.
  pub ttl : Text → Store → ℤ
  pub expire : Text → ℤ → Store → Bool × Store
  pub sadd : Text → Text → Store → Store
  pub srem : Text → List Text → Store → Store
  pub smembers : Text → Store → List Text
  -- The text of `redis.Nil`.
  pub nil_text : Text
  -- `Bytes()` of a reply, which is nil or not for an empty value.
  pub bytes : Text → Option Text

module _ (server : Keyspace) where
  open server use {Store, get, mget, set, del, exists, ttl, expire, sadd, srem, smembers, bytes}

  pub record KeyLaws : Type 0 where
    pub bytes_value : (v : Text) → (bytes v ≡ some v) ⊎ ((v ≡ []) × (bytes v ≡ none))
    pub mget_map : (ks : List Text) (s : Store) → mget ks s ≡ map (λ k. get k s) ks
    pub set_get : (k v : Text) (d : ℤ) (s : Store) → get k (set k v d s) ≡ some v
    pub set_other :
        (k k' v : Text) (d : ℤ) (s : Store)
        → k' ≢ k
        → (get k' (set k v d s) ≡ get k' s) × (smembers k' (set k v d s) ≡ smembers k' s)
    pub del_gone :
        (k : Text) (ks : List Text) (s : Store)
        → mem k ks ≡ true
        → (get k (del ks s).1 ≡ none) × (smembers k (del ks s).1 ≡ [])
    pub del_other :
        (k : Text) (ks : List Text) (s : Store)
        → mem k ks ≡ false
        → (get k (del ks s).1 ≡ get k s) × (smembers k (del ks s).1 ≡ smembers k s)
    pub set_ttl : (k k' v : Text) (d : ℤ) (s : Store) → k' ≢ k → ttl k' (set k v d s) ≡ ttl k' s
    -- DEL returns the number of keys that it removed.
    pub del_count :
        (ks : List Text) (s : Store) → IsDistinct ks → (del ks s).0 ≡ total (λ k. exists k s) ks
    -- EXISTS of one key is 0 or 1, and an empty set does not exist.
    pub exists_iff :
        (k : Text) (s : Store)
        → ((exists k s ≡ 0) × (get k s ≡ none) × (smembers k s ≡ []))
          ⊎ ((exists k s ≡ 1) × ((get k s ≢ none) ⊎ (smembers k s ≢ [])))
    pub smembers_distinct : (k : Text) (s : Store) → IsDistinct (smembers k s)
    pub sadd_mem :
        (k x y : Text) (s : Store)
        → get k s ≡ none
        → mem y (smembers k (sadd k x s)) ≡ (text_eq y x || mem y (smembers k s))
    pub sadd_get : (k k' x : Text) (s : Store) → get k' (sadd k x s) ≡ get k' s
    pub sadd_other : (k k' x : Text) (s : Store) → k' ≢ k → smembers k' (sadd k x s) ≡ smembers k' s
    pub srem_mem :
        (k y : Text) (xs : List Text) (s : Store)
        → get k s ≡ none
        → mem y (smembers k (srem k xs s)) ≡ (not (mem y xs) && mem y (smembers k s))
    pub srem_get : (k k' : Text) (xs : List Text) (s : Store) → get k' (srem k xs s) ≡ get k' s
    pub srem_other :
        (k k' : Text) (xs : List Text) (s : Store)
        → k' ≢ k
        → smembers k' (srem k xs s) ≡ smembers k' s
    -- A time to live in the future leaves the value; one in whole seconds is the one that TTL
    -- returns at once.
    pub expire_keeps :
        (k k' : Text) (d : ℤ) (s : Store)
        → pos 0 <ℤ d
        → (get k' (expire k d s).1 ≡ get k' s) × (smembers k' (expire k d s).1 ≡ smembers k' s)
    pub expire_ttl :
        (k : Text) (n : ℕ) (s : Store)
        → 0 < n
        → exists k s ≡ 1
        → ttl k (expire k (pos (n * 1000000000)) s).1 ≡ pos (n * 1000000000)
    -- TTL returns whole seconds, or -1 or -2 for no time to live or no key.
    pub ttl_seconds :
        (k : Text) (s : Store)
        → (ttl k s ≡ negsuc 0) ⊎ (ttl k s ≡ negsuc 1) ⊎ ((n : ℕ) × (ttl k s ≡ pos (n * 1000000000)))
