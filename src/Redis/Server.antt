-- ===== src/Redis/Server.antt =====
-- The Redis server and the connection to it, neither of which is in the repository: the commands
-- that the code sends, and what the documentation of the commands says of them.
pub mod Listed
use txova_go_db.Prelude.{ℕ, ◌≡◌, ◌≢◌, Bool, true, false, Option, none, some, Result, ok, err}
use txova_go_db.Prelude.Int.{ℤ, pos, ◌≤ℤ◌, ◌<ℤ◌}
use txova_go_db.Text.{Text}
use txova_go_db.Redis.Errors.{Error}

-- A command reaches the server and its reply comes back, or it does nothing and there is an error
-- (it does not reach the server, or the server answers with an error, as it does to a SET with a
-- negative time to live), or its reply is lost.
pub data Fault : Type 0 where
  delivered : Fault
  refused lost : Error → Fault

-- One command or one script: the server runs it as a whole.
abbrev pub call : {S A : Type 0} → Fault → (S → A × S) → S → Result Error A × S
call delivered command s = let (a, s') = command s in (ok a, s')
call (refused e) command s = (err e, s)
call (lost e) command s = (err e, (command s).1)

-- The commands on string keys, with the store that they run on.
pub record Server : Type 1 where
  pub Store : Type 0
  -- GET, with nothing for a missing key.
  pub lookup : Text → Store → Option Text
  -- SET key value NX with a time to live in nanoseconds.
  pub set_nx : Text → Text → ℤ → Store → Bool × Store
  pub del : Text → Store → ℕ × Store
  -- PEXPIRE, with a time to live in milliseconds.
  pub pexpire : Text → ℤ → Store → ℕ × Store
  -- PTTL, as the client returns it.
  pub pttl : Text → Store → ℤ
  -- The text of `redis.Nil`.
  pub nil_text : Text

module _ (server : Server) where
  open server use {Store, lookup, set_nx, del, pexpire}

  -- What the documentation of the commands says.
  pub record Laws : Type 0 where
    pub set_nx_held :
        (k o v : Text) (ttl : ℤ) (s : Store) → lookup k s ≡ some v → set_nx k o ttl s ≡ (false, s)
    pub set_nx_free :
        (k o : Text) (ttl : ℤ) (s : Store)
        → pos 0 ≤ℤ ttl
        → lookup k s ≡ none
        → (set_nx k o ttl s).0 ≡ true
    pub set_nx_true :
        (k o : Text) (ttl : ℤ) (s : Store)
        → (set_nx k o ttl s).0 ≡ true
        → lookup k (set_nx k o ttl s).1 ≡ some o
    pub set_nx_other :
        (k k' o : Text) (ttl : ℤ) (s : Store)
        → k' ≢ k
        → lookup k' (set_nx k o ttl s).1 ≡ lookup k' s
    pub del_held :
        (k v : Text) (s : Store)
        → lookup k s ≡ some v
        → ((del k s).0 ≡ 1) × (lookup k (del k s).1 ≡ none)
    pub del_other : (k k' : Text) (s : Store) → k' ≢ k → lookup k' (del k s).1 ≡ lookup k' s
    pub pexpire_held :
        (k v : Text) (ms : ℤ) (s : Store)
        → pos 0 <ℤ ms
        → lookup k s ≡ some v
        → ((pexpire k ms s).0 ≡ 1) × (lookup k (pexpire k ms s).1 ≡ some v)
    pub pexpire_past :
        (k v : Text) (ms : ℤ) (s : Store)
        → ms ≤ℤ pos 0
        → lookup k s ≡ some v
        → ((pexpire k ms s).0 ≡ 1) × (lookup k (pexpire k ms s).1 ≡ none)
    pub pexpire_other :
        (k k' : Text) (ms : ℤ) (s : Store) → k' ≢ k → lookup k' (pexpire k ms s).1 ≡ lookup k' s
