-- ===== src/Redis/Cache/Codec.antt =====
-- redis/cache.go: the JSON operations of `Cache`, over a codec that stands for encoding/json.
pub mod Decoding
mod Tests
use txova_go_db.Prelude.{◌≡◌, Option, none, some, Result, ok, err, []}
use txova_go_db.Prelude.Int.{ℤ}
use txova_go_db.Text.{Text, codes}
use txova_go_db.Redis.Errors.{Error}
use txova_go_db.Redis.Errors.Kinds.{serialization_wrap}
use txova_go_db.Redis.Json.{Codec, serialized}
use txova_go_db.Redis.Server.{Fault}
use txova_go_db.Redis.Keyspace.{Keyspace}
use txova_go_db.Redis.Cache.{Cache, get, set_with_ttl}

abbrev pub found : {A : Type 0} → Result Error A → Result Error (Option A)
found (ok v) = ok (some v)
found (err e) = err e

module _ (server : Keyspace) {Value : Type 0} (codec : Codec Value) where
  open server use {Store}
  open codec use {marshal, unmarshal}

  pub json_answer : Result Error (Option Text) → Result Error (Option Value)
  json_answer (err e) = err e
  json_answer (ok none) = ok none
  json_answer (ok (some text)) =
      found (serialized (codes "failed to unmarshal cached value") (unmarshal text))

  -- The value that GetJSON decodes, or nothing for a miss.
  pub get_json : Cache → Fault → Text → Store → Result Error (Option Value)
  unfolding json_answer
  get_json c fault key s = json_answer (get server c fault key s)

  pub set_encoded : Cache → Fault → Text → ℤ → Result Error Text → Store → Option Error × Store
  set_encoded c fault key ttl (err e) s =
      (some (serialization_wrap (codes "failed to marshal value for cache") e), s)
  set_encoded c fault key ttl (ok text) s = set_with_ttl server c fault key text ttl s

  pub set_json_with_ttl : Cache → Fault → Text → Value → ℤ → Store → Option Error × Store
  unfolding set_encoded
  set_json_with_ttl c fault key value ttl s = set_encoded c fault key ttl (marshal value) s

  unfoldable set_json : Cache → Fault → Text → Value → Store → Option Error × Store
  unfolding set_json_with_ttl
  set_json c fault key value s = set_json_with_ttl c fault key value c.default_ttl s

  -- What the destination holds in the end: the value, encoded and decoded once more.
  pub reencoded : Result Error Text → Result Error Value
  reencoded (err e) = err (serialization_wrap (codes "failed to marshal computed value") e)
  reencoded (ok text) = serialized (codes "failed to unmarshal computed value") (unmarshal text)

  pub after_compute_json :
      Cache → Fault → Text → ℤ → Result Error Value → Store → Result Error Value × Store
  unfolding reencoded
  after_compute_json c fault key ttl (err e) s = (err e, s)
  after_compute_json c fault key ttl (ok value) s =
      (reencoded (marshal value), (set_json_with_ttl c fault key value ttl s).1)

  pub after_get_json :
      Cache
      → Fault
      → Text
      → ℤ
      → (Store → Result Error Value × Store)
      → Result Error (Option Value)
      → Store
      → Result Error Value × Store
  unfolding after_compute_json
  after_get_json c fault key ttl compute (err e) s = (err e, s)
  after_get_json c fault key ttl compute (ok (some value)) s = (ok value, s)
  after_get_json c fault key ttl compute (ok none) s =
      let (answer, s') = compute s in after_compute_json c fault key ttl answer s'

  pub get_or_set_json_with_ttl :
      Cache
      → Fault
      → Fault
      → Text
      → ℤ
      → (Store → Result Error Value × Store)
      → Store
      → Result Error Value × Store
  unfolding after_get_json
  get_or_set_json_with_ttl c fault_get fault_set key ttl compute s =
      after_get_json c fault_set key ttl compute (get_json c fault_get key s) s

  unfoldable get_or_set_json :
      Cache
      → Fault
      → Fault
      → Text
      → (Store → Result Error Value × Store)
      → Store
      → Result Error Value × Store
  unfolding get_or_set_json_with_ttl
  get_or_set_json c fault_get fault_set key compute s =
      get_or_set_json_with_ttl c fault_get fault_set key c.default_ttl compute s
