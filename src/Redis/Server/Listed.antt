-- ===== src/Redis/Server/Listed.antt =====
-- A server that keeps its keys in a list and whose keys expire only when they are told to, as an
-- instance of the laws.
use txova_go_db.Prelude.{
  ℕ, ◌≡◌, ◌≢◌, refl, sym, Bool, true, false, List, [], ◌∷◌, Option, none, some, Bool-cases, inl,
  inr, if◌then◌else◌, arith,
}
use txova_go_db.Prelude.Int.{ℤ, pos, ltb_ℤ}
use txova_go_db.Text.{Text, text_eq, codes}
use txova_go_db.Text.Equality.{text_eq_iff, text_eq_refl}
use txova_go_db.Redis.Server.{Server, Laws}

abbrev pub Entries : Type 0
Entries = List (Text × Text)

abbrev pub find : Text → Entries → Option Text
find k [] = none
find k ((k', v) ∷ s) = if text_eq k' k then some v else find k s

abbrev pub remove : Text → Entries → Entries
remove k [] = []
remove k ((k', v) ∷ s) = let rest = remove k s in if text_eq k' k then rest else (k', v) ∷ rest

-- The answer of a command on the key that was found, or nothing.
abbrev set_if_missing : Option Text → Text → Text → Entries → Bool × Entries
set_if_missing (some v) k o s = (false, s)
set_if_missing none k o s = (true, (k, o) ∷ s)

abbrev delete_if_held : Option Text → Text → Entries → ℕ × Entries
delete_if_held none k s = (0, s)
delete_if_held (some v) k s = (1, remove k s)

abbrev expire_if_held : Option Text → Text → ℤ → Entries → ℕ × Entries
expire_if_held none k ms s = (0, s)
expire_if_held (some v) k ms s = (1, if ltb_ℤ (pos 0) ms then s else remove k s)

abbrev pub listed : Server
listed = record {
  Store = Entries;
  lookup = find;
  set_nx = λ k o ttl s. set_if_missing (find k s) k o s;
  del = λ k s. delete_if_held (find k s) k s;
  pexpire = λ k ms s. expire_if_held (find k s) k ms s;
  pttl = λ k s. pos 0;
  nil_text = codes "redis: nil";
}

text_eq-false : (s t : Text) → s ≢ t → text_eq s t ≡ false
text_eq-false s t h = elim (Bool-cases (text_eq s t)) [
  | inl e ↦ absurd (h ((text_eq_iff s t).0 e))
  | inr e ↦ e
]

find-remove : (k : Text) (s : Entries) → find k (remove k s) ≡ none
find-remove k [] = refl
find-remove k ((k', v) ∷ s) = elim (Bool-cases (text_eq k' k)) [
  | inl e ↦ rw e (find-remove k s)
  | inr e ↦ rw (e, e) (find-remove k s)
]

find-remove_other : (k k' : Text) (s : Entries) → k' ≢ k → find k' (remove k s) ≡ find k' s
find-remove_other k k' [] h = refl
find-remove_other k k' ((j, v) ∷ s) h = elim (Bool-cases (text_eq j k)) [
  | inl e ↦
      let same : j ≡ k = (text_eq_iff j k).0 e in
      let ne = text_eq-false k k' (λ q. h (sym q)) in
      rw (same, text_eq_refl k, ne) (find-remove_other k k' s h)
  | inr e ↦ rw (e, find-remove_other k k' s h) refl
]

set_other :
    (o : Option Text) (k k' v : Text) (s : Entries)
    → k' ≢ k
    → find k' (set_if_missing o k v s).1 ≡ find k' s
set_other (some w) k k' v s h = refl
set_other none k k' v s h = rw (text_eq-false k k' (λ q. h (sym q))) refl

set_true :
    (o : Option Text) (k v : Text) (s : Entries)
    → (set_if_missing o k v s).0 ≡ true
    → find k (set_if_missing o k v s).1 ≡ some v
set_true (some w) k v s h = cc
set_true none k v s h = rw (text_eq_refl k) refl

delete_other :
    (o : Option Text) (k k' : Text) (s : Entries)
    → k' ≢ k
    → find k' (delete_if_held o k s).1 ≡ find k' s
delete_other none k k' s h = refl
delete_other (some w) k k' s h = find-remove_other k k' s h

expire_other :
    (o : Option Text) (k k' : Text) (ms : ℤ) (s : Entries)
    → k' ≢ k
    → find k' (expire_if_held o k ms s).1 ≡ find k' s
expire_other none k k' ms s h = refl
expire_other (some w) k k' ms s h = elim (Bool-cases (ltb_ℤ (pos 0) ms)) [
  | inl e ↦ rw e refl
  | inr e ↦ rw e (find-remove_other k k' s h)
]

pub listed-Laws : Laws listed
listed-Laws = record {
  set_nx_held = λ k o v ttl s h. rw h refl;
  set_nx_free = λ k o ttl s t h. rw h refl;
  set_nx_true = λ k o ttl s h. set_true (find k s) k o s h;
  set_nx_other = λ k k' o ttl s n. set_other (find k s) k k' o s n;
  del_held = λ k v s h. rw h (refl, find-remove k s);
  del_other = λ k k' s n. delete_other (find k s) k k' s n;
  pexpire_held =
      λ k v ms s t h. let later : ltb_ℤ (pos 0) ms ≡ true = ground arith in rw (h, later) (refl, h);
  pexpire_past = λ k v ms s t h.
      let past : ltb_ℤ (pos 0) ms ≡ false = ground arith in rw (h, past) (refl, find-remove k s);
  pexpire_other = λ k k' ms s n. expire_other (find k s) k k' ms s n;
}
