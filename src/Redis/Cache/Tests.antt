-- ===== src/Redis/Cache/Tests.antt =====
-- The theorems on the cache at a server whose keys are functions.
use txova_go_db.Prelude.{
  ◌≡◌, refl, false, List, [], ◌∷◌, Option, none, some, Result, ok, err, if◌then◌else◌,
}
use txova_go_db.Prelude.Int.{ℤ, pos}
use txova_go_db.Text.{Text, codes, text_eq}
use txova_go_db.Text.Members.{mem, find}
use txova_go_db.Redis.Errors.{Error}
use txova_go_db.Redis.Server.{delivered, refused}
use txova_go_db.Redis.Keyspace.{whole}
use txova_go_db.Redis.Keyspace.Mapped.{Keys, mapped, mapped-KeyLaws}
use txova_go_db.Redis.Cache.{
  Cache, prefix_key, set_with_ttl, delete, after_compute, after_get, get_or_set_with_ttl, mget,
  mset_with_ttl,
}
use txova_go_db.Redis.Cache.RoundTrip.{get_missing, get_or_set_with_ttl-cached}
use txova_go_db.Redis.Cache.Many.{otherwise, mset_with_ttl-mget}
use txova_go_db.Redis.Cache.Batches.{Scan, delete_by_pattern}
use txova_go_db.Redis.Cache.Batches.Clearing.{Cleared, delete_by_pattern-Cleared}

abbrev shop : Cache
shop = record { default_ttl = pos 60000000000; key_prefix = codes "shop" }

abbrev rides : Cache
rides = record { default_ttl = pos 60000000000; key_prefix = codes "rides" }

abbrev nothing : Keys
nothing = record { strings = λ k. none; sets = λ k. []; seconds = λ k. 0 }

abbrev minute : ℤ
minute = pos 60000000000

set_done : (set_with_ttl mapped shop delivered (codes "a") (codes "1") minute nothing).0 ≡ none
unfolding set_with_ttl
set_done = refl

abbrev stored : Keys
stored = (set_with_ttl mapped shop delivered (codes "a") (codes "1") minute nothing).1

delete_done : (delete mapped shop delivered (codes "a" ∷ codes "b" ∷ []) stored).0 ≡ none
unfolding delete
delete_done = refl

-- The value is computed, and another key is written meanwhile.
abbrev computes : Keys → Result Error (Option Text) × Keys
computes s = (ok (some (codes "2")), (mapped.set (codes "other") (codes "x") minute s))

abbrev fails : Keys → Result Error (Option Text) × Keys
fails s = (err (Error.other (codes "no")), s)

computed :
    (get_or_set_with_ttl mapped shop delivered delivered (codes "c") minute computes nothing).0
    ≡ ok (some (codes "2"))
unfolding get_or_set_with_ttl after_get after_compute
computed = rw (get_missing mapped mapped-KeyLaws shop (codes "c") nothing refl) refl

get_or_set_with_ttl-cached_example :
    get_or_set_with_ttl mapped shop delivered
      (refused (Error.other (codes "EOF")))
      (codes "c")
      minute
      fails
      (get_or_set_with_ttl mapped shop delivered delivered (codes "c") minute computes nothing).1
    ≡ (
      ok (some (codes "2")),
      (get_or_set_with_ttl mapped shop delivered delivered (codes "c") minute computes nothing).1,
    )
get_or_set_with_ttl-cached_example =
    get_or_set_with_ttl-cached mapped mapped-KeyLaws shop (refused (Error.other (codes "EOF")))
      (codes "c") minute minute computes fails nothing (λ e. cc) computed

apart_keys : prefix_key shop (codes "a:b") ≡ prefix_key shop (codes "a:b")
apart_keys = refl

abbrev two : List (Text × Text)
two = (codes "a", codes "1") ∷ (codes "b", codes "") ∷ []

two_keys : mem (codes "a") (codes "b" ∷ []) ≡ false
unfolding mem text_eq
two_keys = refl

one_key : mem (codes "b") [] ≡ false
unfolding mem
one_key = refl

mset_with_ttl-mget_example :
    ((mset_with_ttl mapped shop whole two minute nothing).0 ≡ none)
    × ((got : List (Text × Option Text)) × (mget mapped shop delivered
            (codes "b" ∷ codes "x" ∷ [])
            (mset_with_ttl mapped shop whole two minute nothing).1
          ≡ ok got)
        × ((k : Text)
            → find k got ≡ (
                if mem k (codes "b" ∷ codes "x" ∷ [])
                then some (otherwise (find k two) (mapped.get (prefix_key shop k) nothing))
                else none)))
mset_with_ttl-mget_example =
    mset_with_ttl-mget mapped mapped-KeyLaws shop two minute (codes "b" ∷ codes "x" ∷ []) nothing
      (two_keys, (one_key, tt))

-- A scan that yields the two keys of the pattern.
abbrev scan : Scan
scan = record { yields = λ pattern. codes "shop:a" ∷ codes "shop:c" ∷ []; iter_error = none }

delete_by_pattern-Cleared_example :
    ((delete_by_pattern mapped shop (λ i. delivered) scan (codes "*") stored).0.1 ≡ none)
    × Cleared mapped
        (codes "shop:a" ∷ codes "shop:c" ∷ [])
        stored
        (delete_by_pattern mapped shop (λ i. delivered) scan (codes "*") stored).1
delete_by_pattern-Cleared_example =
    delete_by_pattern-Cleared mapped mapped-KeyLaws (λ i. delivered) (λ i. refl) shop scan
      (codes "*") stored refl

scan_keys : mem (codes "shop:a") (codes "shop:c" ∷ []) ≡ false
unfolding mem text_eq
scan_keys = refl

no_more : mem (codes "shop:c") [] ≡ false
unfolding mem
no_more = refl
