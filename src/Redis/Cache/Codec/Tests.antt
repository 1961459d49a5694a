-- ===== src/Redis/Cache/Codec/Tests.antt =====
-- The theorems on the JSON operations of the cache at a server whose keys are functions.
use txova_go_db.Prelude.{◌≡◌, refl, [], ◌∷◌, none, some, Result, ok, err, subst}
use txova_go_db.Prelude.Int.{ℤ, pos}
use txova_go_db.Text.{Text, codes}
use txova_go_db.Redis.Errors.{Error}
use txova_go_db.Redis.Json.{Codec, CodecLaws}
use txova_go_db.Redis.Server.{delivered}
use txova_go_db.Redis.Keyspace.Mapped.{Keys, mapped, mapped-KeyLaws}
use txova_go_db.Redis.Cache.{Cache, set_with_ttl}
use txova_go_db.Redis.Cache.RoundTrip.{get_missing}
use txova_go_db.Redis.Cache.Codec.{set_encoded, set_json_with_ttl, get_json, json_answer}
use txova_go_db.Redis.Cache.Codec.Decoding.{set_json_with_ttl-get_json}

abbrev shop : Cache
shop = record { default_ttl = pos 60000000000; key_prefix = codes "shop" }

abbrev nothing : Keys
nothing = record { strings = λ k. none; sets = λ k. []; seconds = λ k. 0 }

abbrev minute : ℤ
minute = pos 60000000000

-- Texts in quotes.
abbrev unquote : Text → Result Error Text
unquote [] = err (Error.other (codes "unexpected end of JSON input"))
unquote (c ∷ text) = ok text

abbrev quoted : Codec Text
quoted = record { marshal = λ v. ok (b'"' ∷ v); unmarshal = unquote }

quoted-unquote : (v : Text) {text : Text} → quoted.marshal v ≡ ok text → unquote text ≡ ok v
quoted-unquote v {text} e =
    let same : b'"' ∷ v ≡ text = cc in subst (λ t. unquote t ≡ ok v) same refl

quoted-CodecLaws : CodecLaws quoted
quoted-CodecLaws = record { decodes = quoted-unquote; nonempty = λ v e. cc }

json_done :
    (set_json_with_ttl mapped quoted shop delivered (codes "j") (codes "v") minute nothing).0 ≡ none
unfolding set_json_with_ttl set_encoded set_with_ttl
json_done = refl

set_json_with_ttl-get_json_example :
    get_json mapped quoted shop delivered
      (codes "j")
      (set_json_with_ttl mapped quoted shop delivered (codes "j") (codes "v") minute nothing).1
    ≡ ok (some (codes "v"))
set_json_with_ttl-get_json_example =
    set_json_with_ttl-get_json mapped mapped-KeyLaws quoted quoted-CodecLaws shop delivered
      (codes "j") (codes "v") minute nothing json_done

json_missing : get_json mapped quoted shop delivered (codes "j") nothing ≡ ok none
unfolding get_json json_answer
json_missing = rw (get_missing mapped mapped-KeyLaws shop (codes "j") nothing refl) refl

abbrev computes_json : Keys → Result Error Text × Keys
computes_json s = (ok (codes "v"), s)
