-- ===== src/Redis/RateLimit/Sliding/Tests.antt =====
-- The theorem on the sliding window at sorted sets that are a function of the key.
use txova_go_db.Prelude.{
  ◌+◌, ◌≤◌, ◌≡◌, refl, List, [], ◌∷◌, Option, none, some, Bool, true, false, ◌&&◌, length, arith,
  if◌then◌else◌, Bool-cases, inl, inr,
}
use txova_go_db.Prelude.Int.{ℤ, pos, ◌+ℤ◌, ◌≤ℤ◌, ltb_ℤ, leb_ℤ}
use txova_go_db.Prelude.Int64.{wrap64}
use txova_go_db.Text.{Text, codes, text_eq}
use txova_go_db.Text.Equality.{text_eq_refl}
use txova_go_db.Redis.Errors.{Error}
use txova_go_db.Redis.Server.{delivered, lost}
use txova_go_db.Redis.RateLimit.{RateLimiter, max_allowed}
use txova_go_db.Redis.RateLimit.Sliding.{SortedSets, SetLaws, sliding_key, Request, slide_all}
use txova_go_db.Redis.RateLimit.Sliding.Bounds.{slide_all-bounded}

abbrev Members : Type 0
Members = List (ℤ × Text)

abbrev has : Text → Members → Bool
has m [] = false
has m ((score, m') ∷ rest) = let later = has m rest in if text_eq m' m then true else later

abbrev outside : ℤ → ℤ → Members → Members
outside lo hi [] = []
outside lo hi ((score, m) ∷ rest) =
    let others = outside lo hi rest in
    if leb_ℤ lo score && leb_ℤ score hi then others else (score, m) ∷ others

abbrev first : Members → Option ℤ
first [] = none
first ((score, m) ∷ rest) = some score

abbrev add : ℤ → Text → Members → Members
add score m ms = if has m ms then ms else (score, m) ∷ ms

abbrev put : Text → Members → (Text → Members) → Text → Members
put k ms s = λ k'. if text_eq k k' then ms else s k'

abbrev mapped : SortedSets
mapped = record {
  Store = Text → Members;
  zremrangebyscore = λ k lo hi s. put k (outside lo hi (s k)) s;
  zcard = λ k s. length (s k);
  zadd = λ k score m s. put k (add score m (s k)) s;
  first_score = λ k s. first (s k);
  pexpire = λ k ms s. if ltb_ℤ (pos 0) ms then s else put k [] s;
}

length-outside : (lo hi : ℤ) (ms : Members) → length (outside lo hi ms) ≤ length ms
length-outside lo hi [] = omega arith
length-outside lo hi ((score, m) ∷ rest) = elim (Bool-cases (leb_ℤ lo score && leb_ℤ score hi)) [
  | inl e ↦ rw e (omega (arith, length-outside lo hi rest))
  | inr e ↦ rw e (omega (arith, length-outside lo hi rest))
]

length-add : (score : ℤ) (m : Text) (ms : Members) → length (add score m ms) ≤ length ms + 1
length-add score m ms = elim (Bool-cases (has m ms)) [
  | inl e ↦ rw e (omega arith)
  | inr e ↦ rw e (omega arith)
]

length-pexpire :
    (k : Text) (ms : ℤ) (s : Text → Members)
    → length ((if ltb_ℤ (pos 0) ms then s else put k [] s) k) ≤ length (s k)
length-pexpire k ms s = elim (Bool-cases (ltb_ℤ (pos 0) ms)) [
  | inl e ↦ rw e (omega arith)
  | inr e ↦ rw (e, text_eq_refl k) (omega arith)
]

mapped-SetLaws : SetLaws mapped
mapped-SetLaws = record {
  zcard_zadd = λ k score m s. rw (text_eq_refl k) (length-add score m (s k));
  zcard_zremrangebyscore = λ k lo hi s. rw (text_eq_refl k) (length-outside lo hi (s k));
  zcard_pexpire = λ k ms s. length-pexpire k ms s;
}

abbrev limiter : RateLimiter
limiter = record {
  key_prefix = codes "r";
  window = pos 1000000000;
  max_reqs = pos 3;
  burst = pos 0;
}

abbrev requests : List Request
requests =
    record { n = 2; now = pos 0; now_ms = pos 5000; random = λ i. 7; fault = delivered }
    ∷ record {
      n = 1;
      now = pos 0;
      now_ms = pos 5000;
      random = λ i. 7;
      fault = lost (Error.other (codes "EOF"));
    }
    ∷ record { n = 2; now = pos 0; now_ms = pos 5900; random = λ i. 9; fault = delivered }
    ∷ []

abbrev empty : Text → Members
empty k = []

limiter-max : max_allowed limiter ≡ pos 3
unfolding max_allowed wrap64 ◌+ℤ◌
limiter-max = refl

empty-below : pos (length (empty (sliding_key limiter (codes "u")))) ≤ℤ max_allowed limiter
empty-below = rw limiter-max (omega arith)

slide_all-bounded_example :
    pos (
      length
        (slide_all mapped limiter (codes "u") requests empty (sliding_key limiter (codes "u"))))
    ≤ℤ max_allowed limiter
slide_all-bounded_example =
    slide_all-bounded mapped mapped-SetLaws limiter (codes "u") requests empty empty-below
