-- ===== src/Redis/Cache.antt =====
-- redis/cache.go: `Cache` over the server's commands.
pub mod Codec
pub mod Keys
pub mod RoundTrip
pub mod Many
pub mod Batches
mod Tests
use txova_go_db.Prelude.{
  ℕ, ◌++◌, Bool, true, false, List, [], ◌∷◌, Option, none, some, Result, ok, err, map, ltb,
  if◌then◌else◌,
}
use txova_go_db.Prelude.Int.{ℤ, pos}
use txova_go_db.Text.{Text, codes, text_eq}
use txova_go_db.Text.Members.{put}
use txova_go_db.Redis.Errors.{Error, from_redis_error}
use txova_go_db.Redis.Errors.Kinds.{is_not_found}
use Error.{nil_reply}
use txova_go_db.Redis.Server.{Fault, call}
use txova_go_db.Redis.Keyspace.{Delivery, exec, Keyspace}

pub record Cache : Type 0 where
  pub default_ttl : ℤ
  pub key_prefix : Text

-- `CacheOption`; the logger is left out.
pub data CacheOption : Type 0 where
  with_default_ttl : ℤ → CacheOption
  with_key_prefix : Text → CacheOption

abbrev apply_option : CacheOption → Cache → Cache
apply_option (with_default_ttl ttl) cache = record cache { default_ttl = ttl }
apply_option (with_key_prefix prefix) cache = record cache { key_prefix = prefix }

abbrev apply_options : List CacheOption → Cache → Cache
apply_options [] cache = cache
apply_options (opt ∷ opts) cache = apply_options opts (apply_option opt cache)

unfoldable pub new_cache : List CacheOption → Cache
new_cache opts = apply_options opts (record { default_ttl = pos 900000000000; key_prefix = [] })

pub prefix_key : Cache → Text → Text
prefix_key c key = if text_eq c.key_prefix [] then key else c.key_prefix ++ (codes ":" ++ key)

-- A value of type `[]byte`, which may be nil, as the client sends it.
abbrev pub content : Option Text → Text
content none = []
content (some v) = v

-- The error of a command whose reply is not used.
abbrev pub command_error {ℓ} : {A : Type ℓ} → Result Error A → Option Error
command_error (ok a) = none
command_error (err e) = some (from_redis_error e)

abbrev pub redis_result {ℓ} : {A : Type ℓ} → Result Error A → Result Error A
redis_result (ok a) = ok a
redis_result (err e) = err (from_redis_error e)

-- The loop over the results of MGET, of which there are as many as keys.
pub collect : List Text → List (Option Text) → List (Text × Option Text) → List (Text × Option Text)
collect [] results values = values
collect (k ∷ ks) [] values = values
collect (k ∷ ks) (result ∷ results) values = collect ks results (put k result values)

abbrev pub collect_reply :
    List Text → Result Error (List (Option Text)) → Result Error (List (Text × Option Text))
collect_reply keys (err e) = err (from_redis_error e)
collect_reply keys (ok results) = ok (collect keys results [])

module _ (server : Keyspace) where
  open server use {Store, nil_text, bytes}

  -- What Get makes of an error: nothing, if it says that there is no such key.
  pub get_error : Error → Result Error (Option Text)
  get_error e = if is_not_found (from_redis_error e) then ok none else err (from_redis_error e)

  pub get_answer : Result Error (Option Text) → Result Error (Option Text)
  unfolding get_error
  get_answer (err e) = get_error e
  get_answer (ok none) = get_error (nil_reply nil_text)
  get_answer (ok (some v)) = ok (bytes v)

  pub get : Cache → Fault → Text → Store → Result Error (Option Text)
  unfolding prefix_key
  get c fault key s = get_answer (call fault (λ st. (server.get (prefix_key c key) st, st)) s).0

  pub set_with_ttl : Cache → Fault → Text → Text → ℤ → Store → Option Error × Store
  set_with_ttl c fault key value ttl s =
      let (reply, s') = call fault (λ st. (tt, server.set (prefix_key c key) value ttl st)) s in
      (command_error reply, s')

  unfoldable set : Cache → Fault → Text → Text → Store → Option Error × Store
  unfolding set_with_ttl
  set c fault key value s = set_with_ttl c fault key value c.default_ttl s

  pub delete : Cache → Fault → List Text → Store → Option Error × Store
  delete c fault [] s = (none, s)
  delete c fault (key ∷ keys) s =
      let (reply, s') = call fault (server.del (map (prefix_key c) (key ∷ keys))) s in
      (command_error reply, s')

  pub exists_answer : Result Error ℕ → Result Error Bool
  exists_answer (ok n) = ok (ltb 0 n)
  exists_answer (err e) = err (from_redis_error e)

  unfoldable exists : Cache → Fault → Text → Store → Result Error Bool
  unfolding exists_answer
  exists c fault key s =
      exists_answer (call fault (λ st. (server.exists (prefix_key c key) st, st)) s).0

  -- The value that was computed, if there is one, is stored; the error of storing it is dropped.
  pub after_compute :
      Cache
      → Fault
      → Text
      → ℤ
      → Result Error (Option Text)
      → Store
      → Result Error (Option Text) × Store
  unfolding set_with_ttl
  after_compute c fault key ttl (err e) s = (err e, s)
  after_compute c fault key ttl (ok value) s =
      (ok value, (set_with_ttl c fault key (content value) ttl s).1)

  -- What follows the lookup of GetOrSetWithTTL.
  pub after_get :
      Cache
      → Fault
      → Text
      → ℤ
      → (Store → Result Error (Option Text) × Store)
      → Result Error (Option Text)
      → Store
      → Result Error (Option Text) × Store
  unfolding after_compute
  after_get c fault key ttl compute (err e) s = (err e, s)
  after_get c fault key ttl compute (ok (some value)) s = (ok (some value), s)
  after_get c fault key ttl compute (ok none) s =
      let (answer, s') = compute s in after_compute c fault key ttl answer s'

  -- The connection of the lookup, and that of the command that stores.
  pub get_or_set_with_ttl :
      Cache
      → Fault
      → Fault
      → Text
      → ℤ
      → (Store → Result Error (Option Text) × Store)
      → Store
      → Result Error (Option Text) × Store
  unfolding get after_get
  get_or_set_with_ttl c fault_get fault_set key ttl compute s =
      after_get c fault_set key ttl compute (get c fault_get key s) s

  unfoldable get_or_set :
      Cache
      → Fault
      → Fault
      → Text
      → (Store → Result Error (Option Text) × Store)
      → Store
      → Result Error (Option Text) × Store
  unfolding get_or_set_with_ttl
  get_or_set c fault_get fault_set key compute s =
      get_or_set_with_ttl c fault_get fault_set key c.default_ttl compute s

  pub mget : Cache → Fault → List Text → Store → Result Error (List (Text × Option Text))
  mget c fault [] s = ok []
  mget c fault (key ∷ keys) s =
      collect_reply (key ∷ keys)
        (call fault (λ st. (server.mget (map (prefix_key c) (key ∷ keys)) st, st)) s).0

  -- The commands of MSetWithTTL, in the order in which the map is walked through.
  pub set_commands : Cache → ℤ → List (Text × Text) → List (Store → Store)
  set_commands c ttl [] = []
  set_commands c ttl ((key, value) ∷ values) =
      server.set (prefix_key c key) value ttl ∷ set_commands c ttl values

  abbrev pub pipeline_error : Option Error → Option Error
  pipeline_error none = none
  pipeline_error (some e) = some (from_redis_error e)

  pub mset_with_ttl : Cache → Delivery → List (Text × Text) → ℤ → Store → Option Error × Store
  unfolding set_commands
  mset_with_ttl c delivery [] ttl s = (none, s)
  mset_with_ttl c delivery (entry ∷ values) ttl s =
      let (e, s') = exec delivery (set_commands c ttl (entry ∷ values)) s in (pipeline_error e, s')

  unfoldable mset : Cache → Delivery → List (Text × Text) → Store → Option Error × Store
  unfolding mset_with_ttl
  mset c delivery values s = mset_with_ttl c delivery values c.default_ttl s

  pub ttl : Cache → Fault → Text → Store → Result Error ℤ
  ttl c fault key s = redis_result (call fault (λ st. (server.ttl (prefix_key c key) st, st)) s).0

  unfoldable expire : Cache → Fault → Text → ℤ → Store → Result Error Bool × Store
  expire c fault key d s =
      let (reply, s') = call fault (server.expire (prefix_key c key) d) s in
      (redis_result reply, s')
