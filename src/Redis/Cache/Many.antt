-- ===== src/Redis/Cache/Many.antt =====
-- redis/cache.go: MGet and MSet against Get and Set.
use txova_go_db.Prelude.{
  ℕ, zero, suc, ◌≡◌, ◌≢◌, refl, ap, ◌∙◌, ◌⊎◌, inl, inr, false, List, [], ◌∷◌, Option, none, some,
  ok, map, Bool-cases, if◌then◌else◌,
}
use txova_go_db.Prelude.Int.{ℤ}
use txova_go_db.Text.{Text, text_eq}
use txova_go_db.Text.Equality.{text_eq_iff, text_eq-ne}
use txova_go_db.Text.Members.{mem, find, put, IsDistinct, find-put_same, find-put_other}
use txova_go_db.Redis.Errors.{Error, from_redis_error}
use txova_go_db.Redis.Server.{delivered}
use txova_go_db.Redis.Keyspace.{whole, cut, run_all, run_first, Keyspace, KeyLaws}
use txova_go_db.Redis.Cache.{Cache, prefix_key, collect, mget, set_commands, mset_with_ttl}
use txova_go_db.Redis.Cache.Keys.{prefix_key_injective}

find-put :
    {A : Type 0} (k j : Text) (a : A) (d : List (Text × A))
    → find k (put j a d) ≡ (if text_eq k j then some a else find k d)
find-put k j a d = elim (Bool-cases (text_eq k j)) [
  | inl e ↦ rw (e, (text_eq_iff k j).0 e) (find-put_same j a d)
  | inr e ↦ rw e (find-put_other k j a d (text_eq-ne k j e))
]

-- The values of the keys, by any function from keys.
collect-find :
    (read : Text → Option Text) (ks : List Text) (d : List (Text × Option Text)) (k : Text)
    → find k (collect ks (map read ks) d) ≡ (if mem k ks then some (read k) else find k d)
unfolding collect mem
collect-find read [] d k = refl
collect-find read (j ∷ ks) d k =
    let rest = collect-find read ks (put j (read j) d) k in
    elim (Bool-cases (mem k ks)) [
      | inl m ↦
          rw (m, rest, m)
            (elim (Bool-cases (text_eq k j)) [ inl e ↦ rw e refl | inr e ↦ rw e refl ])
      | inr m ↦
          rw (m, rest, m, find-put k j (read j) d)
            (elim (Bool-cases (text_eq k j)) [
              | inl e ↦ rw (e, (text_eq_iff k j).0 e) refl
              | inr e ↦ rw e refl
            ])
    ]

-- The keys of a map, each of which is there once.
abbrev pub keys_of : List (Text × Text) → List Text
keys_of [] = []
keys_of ((key, value) ∷ values) = key ∷ keys_of values

abbrev pub otherwise : Option Text → Option Text → Option Text
otherwise (some v) old = some v
otherwise none old = old

-- The first entries.
abbrev first : ℕ → List (Text × Text) → List (Text × Text)
first zero values = []
first (suc n) [] = []
first (suc n) (entry ∷ values) = entry ∷ first n values

find-missing :
    (k : Text) (values : List (Text × Text)) → mem k (keys_of values) ≡ false → find k values ≡ none
unfolding mem find
find-missing k [] h = refl
find-missing k ((j, v) ∷ values) h = elim (Bool-cases (text_eq k j)) [
  | inl e ↦ let both = rw e at h in cc
  | inr e ↦ rw e (find-missing k values (rw e at h))
]

mem-first :
    (n : ℕ) (k : Text) (values : List (Text × Text))
    → mem k (keys_of values) ≡ false
    → mem k (keys_of (first n values)) ≡ false
unfolding mem
mem-first zero k values h = refl
mem-first (suc n) k [] h = refl
mem-first (suc n) k ((j, v) ∷ values) h = elim (Bool-cases (text_eq k j)) [
  | inl e ↦ let both = rw e at h in cc
  | inr e ↦ rw e (mem-first n k values (rw e at h))
]

first-IsDistinct :
    (n : ℕ) (values : List (Text × Text))
    → IsDistinct (keys_of values)
    → IsDistinct (keys_of (first n values))
first-IsDistinct zero values d = tt
first-IsDistinct (suc n) [] d = tt
first-IsDistinct (suc n) ((j, v) ∷ values) (new, d) =
    (mem-first n j values new, first-IsDistinct n values d)

find-first :
    (n : ℕ) (k : Text) (values : List (Text × Text))
    → (find k (first n values) ≡ find k values) ⊎ (find k (first n values) ≡ none)
unfolding find
find-first zero k values = inr refl
find-first (suc n) k [] = inl refl
find-first (suc n) k ((j, v) ∷ values) = elim (Bool-cases (text_eq k j)) [
  | inl e ↦ inl (rw e refl)
  | inr e ↦ rw e (find-first n k values)
]

module _ (server : Keyspace) (laws : KeyLaws server) (c : Cache) where
  open server use {Store}
  open laws use {mget_map, set_get, set_other}

  read : Store → Text → Option Text
  read s k = server.get (prefix_key c k) s

  map-read :
      (ks : List Text) (s : Store)
      → map (λ k. server.get k s) (map (prefix_key c) ks) ≡ map (read s) ks
  unfolding read
  map-read [] s = refl
  map-read (k ∷ ks) s = ap (λ rest. server.get (prefix_key c k) s ∷ rest) (map-read ks s)

  read-set :
      (key v : Text) (ttl : ℤ) (s : Store) (k : Text)
      → read (server.set (prefix_key c key) v ttl s) k
        ≡ (if text_eq k key then some v else read s k)
  unfolding read
  read-set key v ttl s k = elim (Bool-cases (text_eq k key)) [
    | inl e ↦ rw (e, (text_eq_iff k key).0 e) (set_get (prefix_key c key) v ttl s)
    | inr e ↦
        rw e
          (set_other (prefix_key c key) (prefix_key c k) v ttl s
            (λ q. text_eq-ne k key e (prefix_key_injective c k key q))).0
  ]

  read-set_commands :
      (ttl : ℤ) (values : List (Text × Text)) (s : Store) (k : Text)
      → IsDistinct (keys_of values)
      → read (run_all (set_commands server c ttl values) s) k ≡ otherwise (find k values) (read s k)
  unfolding set_commands find
  read-set_commands ttl [] s k d = refl
  read-set_commands ttl ((j, v) ∷ values) s k (new, d) =
      read-set_commands ttl values (server.set (prefix_key c j) v ttl s) k d
      ∙ rw (read-set j v ttl s k) (elim (Bool-cases (text_eq k j)) [
        | inl e ↦
            let missing : find k values ≡ none =
              find-missing k values (rw ((text_eq_iff k j).0 e) new) in
            rw (e, missing) refl
        | inr e ↦ rw e refl
      ])

  run_first-set_commands :
      (n : ℕ) (ttl : ℤ) (values : List (Text × Text)) (s : Store)
      → run_first n (set_commands server c ttl values) s
        ≡ run_all (set_commands server c ttl (first n values)) s
  unfolding set_commands
  run_first-set_commands zero ttl values s = refl
  run_first-set_commands (suc n) ttl [] s = refl
  run_first-set_commands (suc n) ttl ((j, v) ∷ values) s =
      run_first-set_commands n ttl values (server.set (prefix_key c j) v ttl s)

  -- An MGet that reaches the server returns a map that has each of the keys, with the value that
  -- the server holds for it or nothing, and no other key.
  mget-find :
      (keys : List Text) (s : Store)
      → (values : List (Text × Option Text)) × (mget server c delivered keys s ≡ ok values)
        × ((k : Text) → find k values ≡ (if mem k keys then some (read s k) else none))
  unfolding mget mem find
  mget-find [] s = ([], refl, λ k. refl)
  mget-find (key ∷ keys) s =
      let results = mget_map (map (prefix_key c) (key ∷ keys)) s ∙ map-read (key ∷ keys) s in
      (
        collect (key ∷ keys) (map (read s) (key ∷ keys)) [],
        rw results refl,
        λ k. collect-find (read s) (key ∷ keys) [] k,
      )

  -- When MSetWithTTL of a map gets through, it returns no error, and an MGet that reaches the server
  -- then returns a map with exactly its keys: to each key of the first map its value, to any other
  -- the value that the server held for it before, if any.
  pub mset_with_ttl-mget :
      (values : List (Text × Text)) (ttl : ℤ) (keys : List Text) (s : Store)
      → IsDistinct (keys_of values)
      → ((mset_with_ttl server c whole values ttl s).0 ≡ none)
        × ((got : List (Text × Option Text)) × (mget server c delivered keys
                (mset_with_ttl server c whole values ttl s).1
              ≡ ok got)
            × ((k : Text)
                → find k got ≡ (
                    if mem k keys
                    then some (otherwise (find k values) (server.get (prefix_key c k) s))
                    else none)))
  unfolding mset_with_ttl read find
  mset_with_ttl-mget [] ttl keys s d = (refl, mget-find keys s)
  mset_with_ttl-mget (entry ∷ values) ttl keys s d =
      let all = set_commands server c ttl (entry ∷ values) in
      let (got, e, finds) = mget-find keys (run_all all s) in
      (
        refl,
        (
          got,
          e,
          λ k.
              finds k
              ∙ ap (λ o. if mem k keys then some o else none)
                  (read-set_commands ttl (entry ∷ values) s k d),
        ),
      )

  -- When the connection ends during MSetWithTTL of a map that is not empty, its error is returned,
  -- classified, and each key of the cache has its value of the map or the one that it had.
  pub mset_with_ttl-cut :
      (values : List (Text × Text)) (ttl : ℤ) (n : ℕ) (e : Error) (s : Store) (k : Text)
      → values ≢ []
      → IsDistinct (keys_of values)
      → ((mset_with_ttl server c (cut n e) values ttl s).0 ≡ some (from_redis_error e))
        × ((server.get (prefix_key c k) (mset_with_ttl server c (cut n e) values ttl s).1
              ≡ otherwise (find k values) (server.get (prefix_key c k) s))
            ⊎ (server.get (prefix_key c k) (mset_with_ttl server c (cut n e) values ttl s).1
                ≡ server.get (prefix_key c k) s))
  unfolding mset_with_ttl read
  mset_with_ttl-cut [] ttl n e s k ne d = absurd (ne refl)
  mset_with_ttl-cut (entry ∷ values) ttl n e s k ne d =
      let some_first =
        read-set_commands ttl (first n (entry ∷ values)) s k
          (first-IsDistinct n (entry ∷ values) d) in
      let got =
        ap (λ st. server.get (prefix_key c k) st) (run_first-set_commands n ttl (entry ∷ values) s)
        ∙ some_first in
      (
        refl,
        elim (find-first n k (entry ∷ values)) [
          | inl f ↦ inl (got ∙ ap (λ o. otherwise o (read s k)) f)
          | inr f ↦ inr (got ∙ ap (λ o. otherwise o (read s k)) f)
        ],
      )
