-- ===== src/Redis/Cache/Codec/Decoding.antt =====
-- redis/cache.go: what GetJSON decodes behind SetJSON and GetOrSetJSON.
use txova_go_db.Prelude.{◌≡◌, ◌≢◌, refl, ap, ◌∙◌, [], none, some, Result, ok, err}
use txova_go_db.Prelude.Int.{ℤ}
use txova_go_db.Text.{Text}
use txova_go_db.Redis.Errors.{Error}
use txova_go_db.Redis.Json.{Codec, CodecLaws}
use txova_go_db.Redis.Server.{Fault, delivered}
use txova_go_db.Redis.Keyspace.{Keyspace, KeyLaws}
use txova_go_db.Redis.Cache.{Cache, prefix_key, set_with_ttl}
use txova_go_db.Redis.Cache.RoundTrip.{get_stored, set_with_ttl-stored}
use txova_go_db.Redis.Cache.Codec.{
  json_answer, get_json, set_encoded, set_json_with_ttl, after_compute_json, after_get_json,
  get_or_set_json_with_ttl, reencoded,
}

module _ (server : Keyspace) (laws : KeyLaws server) {Value : Type 0} (codec : Codec Value)
    (decoding : CodecLaws codec) where
  open server use {Store}
  open laws use {set_get}
  open codec use {marshal, unmarshal}
  open decoding use {decodes, nonempty}

  get_json-stored :
      (c : Cache) (fault : Fault) (key : Text) (value : Value) (ttl : ℤ) (s : Store)
      (encoded : Result Error Text)
      → marshal value ≡ encoded
      → (set_encoded server codec c fault key ttl encoded s).0 ≡ none
      → get_json server codec c delivered key (set_encoded server codec c fault key ttl encoded s).1
        ≡ ok (some value)
  unfolding get_json json_answer set_encoded
  get_json-stored c fault key value ttl s (err e) made done = cc
  get_json-stored c fault key value ttl s (ok text) made done =
      let filled : text ≢ [] = λ e. nonempty value (rw e at made) in
      let got =
        get_stored server laws c key text (set_with_ttl server c fault key text ttl s).1 filled (
          ap (server.get (prefix_key c key))
            (set_with_ttl-stored server laws c fault key text ttl s done)
          ∙ set_get (prefix_key c key) text ttl s) in
      rw (got, decodes value made) refl

  -- When SetJSONWithTTL returns no error, a GetJSON that reaches the server decodes the value.
  pub set_json_with_ttl-get_json :
      (c : Cache) (fault : Fault) (key : Text) (value : Value) (ttl : ℤ) (s : Store)
      → (set_json_with_ttl server codec c fault key value ttl s).0 ≡ none
      → get_json server codec c delivered key
          (set_json_with_ttl server codec c fault key value ttl s).1
        ≡ ok (some value)
  unfolding set_json_with_ttl
  set_json_with_ttl-get_json c fault key value ttl s done =
      get_json-stored c fault key value ttl s (marshal value) refl done

  after_get_json-computed :
      (c : Cache) (fault : Fault) (key : Text) (ttl : ℤ) (value : Value)
      (compute : Store → Result Error Value × Store) (s : Store) {text : Text}
      → (compute s).0 ≡ ok value
      → marshal value ≡ ok text
      → (after_get_json server codec c fault key ttl compute (ok none) s).0 ≡ ok value
  unfolding after_get_json after_compute_json reencoded
  after_get_json-computed c fault key ttl value compute s made encoded =
      rw (made, encoded, decodes value encoded) refl

  -- On a miss, a computed value that can be encoded is the answer of GetOrSetJSONWithTTL, also when
  -- it cannot be stored.
  pub get_or_set_json_with_ttl-computed :
      (c : Cache) (fault_get fault_set : Fault) (key : Text) (ttl : ℤ) (value : Value)
      (compute : Store → Result Error Value × Store) (s : Store) {text : Text}
      → get_json server codec c fault_get key s ≡ ok none
      → (compute s).0 ≡ ok value
      → marshal value ≡ ok text
      → (get_or_set_json_with_ttl server codec c fault_get fault_set key ttl compute s).0 ≡ ok value
  unfolding get_or_set_json_with_ttl
  get_or_set_json_with_ttl-computed c fault_get fault_set key ttl value compute s miss made
        encoded =
      rw miss (after_get_json-computed c fault_set key ttl value compute s made encoded)
