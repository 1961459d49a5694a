-- ===== src/Text/Equality.antt =====
-- `==` on texts, and the code points of texts that are joined or put into upper case.
use txova_go_db.Prelude.{
  ℕ, ◌<◌, ◌≡◌, ◌≢◌, refl, ◌↔◌, true, false, List, [], ◌∷◌, All, All-append, arith,
}
use txova_go_db.Text.{Text, text_eq, tail_of_join, join, to_upper, Lacks}

text_eq_sound : (s t : Text) → text_eq s t ≡ true → s ≡ t
unfolding text_eq
text_eq_sound [] [] h = refl
text_eq_sound [] (d ∷ t) h = cc
text_eq_sound (c ∷ s) [] h = cc
text_eq_sound (c ∷ s) (d ∷ t) h = ground (arith, text_eq_sound s t)

pub text_eq_refl : (s : Text) → text_eq s s ≡ true
unfolding text_eq
text_eq_refl [] = refl
text_eq_refl (c ∷ s) = ground (arith, text_eq_refl s)

pub text_eq_iff : (s t : Text) → (text_eq s t ≡ true) ↔ (s ≡ t)
text_eq_iff s t = (text_eq_sound s t, λ e. ground (arith, text_eq_refl t))

tail_of_join-Lacks :
    (b : ℕ) (sep : Text) (ps : List Text)
    → Lacks b sep
    → All (Lacks b) ps
    → Lacks b (tail_of_join sep ps)
unfolding tail_of_join
tail_of_join-Lacks b sep [] hs hp = tt
tail_of_join-Lacks b sep (p ∷ ps) hs (hp, hps) =
    All-append _ sep _ hs (All-append _ p _ hp (tail_of_join-Lacks b sep ps hs hps))

pub join-Lacks :
    (b : ℕ) (ps : List Text) (sep : Text) → All (Lacks b) ps → Lacks b sep → Lacks b (join ps sep)
unfolding join
join-Lacks b [] sep hp hs = tt
join-Lacks b (p ∷ ps) sep (hp, hps) hs = All-append _ p _ hp (tail_of_join-Lacks b sep ps hs hps)

-- Upper case brings in no code point below the letters.
pub to_upper-Lacks : (b : ℕ) (s : Text) → b < b'A' → Lacks b s → Lacks b (to_upper s)
unfolding to_upper
to_upper-Lacks b [] hb h = tt
to_upper-Lacks b (c ∷ s) hb (hc, hs) = (ground arith, to_upper-Lacks b s hb hs)

pub text_eq-ne : (s t : Text) → text_eq s t ≡ false → s ≢ t
text_eq-ne s t h e = let p = (text_eq_iff s t).1 e in cc
