-- ===== src/Redis/Keyspace/Mapped.antt =====
-- A server whose keys are functions, as an instance of the laws.
use txova_go_db.Prelude.{
  ℕ, zero, suc, ◌+◌, ◌*◌, ◌/◌, ◌<◌, ◌≡◌, ◌≢◌, refl, sym, ◌⊎◌, inl, inr, true, false, not, ◌&&◌,
  ◌||◌, List, [], ◌∷◌, Option, none, some, map, if◌then◌else◌, Bool-cases, arith, ap, ◌∙◌,
}
use txova_go_db.Prelude.Int.{ℤ, pos, negsuc, ltb_ℤ}
use txova_go_db.Text.{Text, text_eq, codes}
use txova_go_db.Text.Equality.{text_eq_refl}
use txova_go_db.Text.Members.{mem, IsDistinct, total, text_eq-false, mem-cons-false}
use txova_go_db.Text.Distinct.{
  insert, without, distinct, insert-mem, distinct-mem, distinct-IsDistinct, without-mem,
  insert-nonempty,
}
use txova_go_db.Redis.Keyspace.{Keyspace, KeyLaws}

-- The times to live are seconds; 0 is none.
pub record Keys : Type 0 where
  pub strings : Text → Option Text
  pub sets : Text → List Text
  pub seconds : Text → ℕ

abbrev update {ℓ} : {A : Type ℓ} → Text → A → (Text → A) → Text → A
update k a f = λ k'. if text_eq k' k then a else f k'

abbrev present : Option Text → List Text → ℕ
present (some v) xs = 1
present none (x ∷ xs) = 1
present none [] = 0

abbrev exists_key : Text → Keys → ℕ
exists_key k s = present (s.strings k) (s.sets k)

abbrev clear : Text → Keys → Keys
clear k s = record {
  strings = update k none s.strings;
  sets = update k [] s.sets;
  seconds = update k 0 s.seconds;
}

abbrev clear_all : List Text → Keys → ℕ × Keys
clear_all [] s = (0, s)
clear_all (k ∷ ks) s = let (n, s') = clear_all ks (clear k s) in (exists_key k s + n, s')

abbrev seconds_of : ℤ → ℕ
seconds_of (pos n) = n / 1000000000
seconds_of (negsuc n) = 0

abbrev ttl_of : ℕ → ℕ → ℤ
ttl_of zero n = negsuc 1
ttl_of (suc e) zero = negsuc 0
ttl_of (suc e) (suc n) = pos (suc n * 1000000000)

abbrev nonempty : Text → Option Text
nonempty [] = none
nonempty (c ∷ v) = some (c ∷ v)

abbrev pub mapped : Keyspace
mapped = record {
  Store = Keys;
  get = λ k s. s.strings k;
  mget = λ ks s. map (λ k. s.strings k) ks;
  set = λ k v d s. record {
    strings = update k (some v) s.strings;
    sets = update k [] s.sets;
    seconds = update k (seconds_of d) s.seconds;
  };
  del = clear_all;
  exists = exists_key;
  ttl = λ k s. ttl_of (exists_key k s) (s.seconds k);
  expire = λ k d s.
      if ltb_ℤ (pos 0) d
      then (true, record s { seconds = update k (seconds_of d) s.seconds })
      else (true, clear k s);
  sadd = λ k x s. record s { sets = update k (insert x (distinct (s.sets k))) s.sets };
  srem = λ k xs s. record s { sets = update k (without xs (s.sets k)) s.sets };
  smembers = λ k s. distinct (s.sets k);
  nil_text = codes "redis: nil";
  bytes = nonempty;
}

update_same {ℓ} : {A : Type ℓ} (k : Text) (a : A) (f : Text → A) → update k a f k ≡ a
update_same k a f = rw (text_eq_refl k) refl

update_other {ℓ} :
    {A : Type ℓ} (k k' : Text) (a : A) (f : Text → A) → k' ≢ k → update k a f k' ≡ f k'
update_other k k' a f h = rw (text_eq-false k' k h) refl

clear_all-other :
    (k : Text) (ks : List Text) (s : Keys)
    → mem k ks ≡ false
    → ((clear_all ks s).1.strings k ≡ s.strings k) × ((clear_all ks s).1.sets k ≡ s.sets k)
clear_all-other k [] s h = (refl, refl)
clear_all-other k (j ∷ ks) s h =
    let (ne, later) = mem-cons-false k j ks h in
    let (p, q) = clear_all-other k ks (clear j s) later in
    (p ∙ update_other j k none s.strings ne, q ∙ update_other j k [] s.sets ne)

clear_all-stays :
    (k : Text) (ks : List Text) (s : Keys)
    → s.strings k ≡ none
    → s.sets k ≡ []
    → ((clear_all ks s).1.strings k ≡ none) × ((clear_all ks s).1.sets k ≡ [])
clear_all-stays k [] s h g = (h, g)
clear_all-stays k (j ∷ ks) s h g = elim (Bool-cases (text_eq k j)) [
  | inl e ↦ clear_all-stays k ks (clear j s) (rw e refl) (rw e refl)
  | inr e ↦ clear_all-stays k ks (clear j s) (rw (e, h) refl) (rw (e, g) refl)
]

clear_all-gone :
    (k : Text) (ks : List Text) (s : Keys)
    → mem k ks ≡ true
    → ((clear_all ks s).1.strings k ≡ none) × ((clear_all ks s).1.sets k ≡ [])
unfolding mem
clear_all-gone k [] s h = cc
clear_all-gone k (j ∷ ks) s h = elim (Bool-cases (text_eq k j)) [
  | inl e ↦ clear_all-stays k ks (clear j s) (rw e refl) (rw e refl)
  | inr e ↦ clear_all-gone k ks (clear j s) (rw e at h)
]

total-same :
    (f g : Text → ℕ) (ks : List Text)
    → ((k : Text) → mem k ks ≡ true → f k ≡ g k)
    → total f ks ≡ total g ks
unfolding mem
total-same f g [] h = refl
total-same f g (k ∷ ks) h =
    let first = h k (rw (text_eq_refl k) refl) in
    let rest = total-same f g ks (λ j m. h j (ground arith)) in omega arith

clear_all-count :
    (ks : List Text) (s : Keys)
    → IsDistinct ks
    → (clear_all ks s).0 ≡ total (λ k. exists_key k s) ks
clear_all-count [] s d = refl
clear_all-count (k ∷ ks) s (new, d) =
    let others =
      total-same (λ j. exists_key j (clear k s)) (λ j. exists_key j s) ks
        (λ j m.
          let ne : j ≢ k = λ e. let both = rw e at m in cc in
          let no = text_eq-false j k ne in rw no refl) in
    let rest = clear_all-count ks (clear k s) d in omega (arith, rest, others)

present_iff :
    (o : Option Text) (xs : List Text)
    → ((present o xs ≡ 0) × (o ≡ none) × (distinct xs ≡ []))
      ⊎ ((present o xs ≡ 1) × ((o ≢ none) ⊎ (distinct xs ≢ [])))
present_iff none [] = inl (refl, refl, refl)
present_iff none (x ∷ xs) = inr (refl, inr (insert-nonempty x (distinct xs)))
present_iff (some v) xs = inr (refl, inl (λ e. cc))

ttl_of-cases :
    (e n : ℕ)
    → (ttl_of e n ≡ negsuc 0)
      ⊎ (ttl_of e n ≡ negsuc 1)
      ⊎ ((m : ℕ) × (ttl_of e n ≡ pos (m * 1000000000)))
ttl_of-cases zero n = inr (inl refl)
ttl_of-cases (suc e) zero = inl refl
ttl_of-cases (suc e) (suc n) = inr (inr (suc n, refl))

ttl_of-seconds :
    (e n : ℕ) → e ≡ 1 → 0 < n → ttl_of e (n * 1000000000 / 1000000000) ≡ pos (n * 1000000000)
ttl_of-seconds e n one h =
    let whole : n * 1000000000 / 1000000000 ≡ n = omega arith in rw (one, whole) (at_least n h)
  where
    at_least : (n : ℕ) → 0 < n → ttl_of 1 n ≡ pos (n * 1000000000)
    at_least zero h = elim h [ ]
    at_least (suc n) h = refl

-- Keys that are not the key of a command.
set_other :
    (k k' v : Text) (d : ℤ) (s : Keys)
    → k' ≢ k
    → (update k (some v) s.strings k' ≡ s.strings k')
      × (distinct (update k [] s.sets k') ≡ distinct (s.sets k'))
set_other k k' v d s h =
    (update_other k k' (some v) s.strings h, ap distinct (update_other k k' [] s.sets h))

set_ttl :
    (k k' v : Text) (d : ℤ) (s : Keys)
    → k' ≢ k
    → ttl_of
        (present (update k (some v) s.strings k') (update k [] s.sets k'))
        (update k (seconds_of d) s.seconds k')
      ≡ ttl_of (exists_key k' s) (s.seconds k')
set_ttl k k' v d s h = rw (text_eq-false k' k h) refl

sadd_mem :
    (k x y : Text) (s : Keys)
    → mem y (distinct (update k (insert x (distinct (s.sets k))) s.sets k))
      ≡ (text_eq y x || mem y (distinct (s.sets k)))
sadd_mem k x y s =
    distinct-mem y _
    ∙ ap (mem y) (update_same k (insert x (distinct (s.sets k))) s.sets)
    ∙ insert-mem x y (distinct (s.sets k))

srem_mem :
    (k y : Text) (xs : List Text) (s : Keys)
    → mem y (distinct (update k (without xs (s.sets k)) s.sets k))
      ≡ (not (mem y xs) && mem y (distinct (s.sets k)))
srem_mem k y xs s =
    distinct-mem y _
    ∙ ap (mem y) (update_same k (without xs (s.sets k)) s.sets)
    ∙ without-mem xs y (s.sets k)
    ∙ ap (λ b. not (mem y xs) && b) (sym (distinct-mem y (s.sets k)))

nonempty-value : (v : Text) → (nonempty v ≡ some v) ⊎ ((v ≡ []) × (nonempty v ≡ none))
nonempty-value [] = inr (refl, refl)
nonempty-value (c ∷ v) = inl refl

pub mapped-KeyLaws : KeyLaws mapped
mapped-KeyLaws = record {
  bytes_value = nonempty-value;
  mget_map = λ ks s. refl;
  set_get = λ k v d s. update_same k (some v) s.strings;
  set_other = set_other;
  set_ttl = set_ttl;
  del_gone = λ k ks s m. let (p, q) = clear_all-gone k ks s m in (p, ap distinct q);
  del_other = λ k ks s m. let (p, q) = clear_all-other k ks s m in (p, ap distinct q);
  del_count = clear_all-count;
  exists_iff = λ k s. present_iff (s.strings k) (s.sets k);
  smembers_distinct = λ k s. distinct-IsDistinct (s.sets k);
  sadd_mem = λ k x y s h. sadd_mem k x y s;
  sadd_get = λ k k' x s. refl;
  sadd_other = λ k k' x s h. ap distinct (update_other k k' _ s.sets h);
  srem_mem = λ k y xs s h. srem_mem k y xs s;
  srem_get = λ k k' xs s. refl;
  srem_other = λ k k' xs s h. ap distinct (update_other k k' _ s.sets h);
  expire_keeps =
      λ k k' d s h. let later : ltb_ℤ (pos 0) d ≡ true = ground arith in rw later (refl, refl);
  expire_ttl = λ k n s h e.
      let later : ltb_ℤ (pos 0) (pos (n * 1000000000)) ≡ true = ground arith in
      rw (later, text_eq_refl k) (ttl_of-seconds (exists_key k s) n e h);
  ttl_seconds = λ k s. ttl_of-cases (exists_key k s) (s.seconds k);
}
