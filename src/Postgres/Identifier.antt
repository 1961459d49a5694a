-- ===== src/Postgres/Identifier.antt =====
-- `columnNameRegex` of postgres/query.go, `^[a-zA-Z_][a-zA-Z0-9_]*(\.[a-zA-Z_][a-zA-Z0-9_]*)?$`.
use txova_go_db.Prelude.{
  ℕ, ◌≡◌, ◌≢◌, refl, Bool, true, false, ◌&&◌, ◌||◌, [], ◌∷◌, ◌++◌, All, All-append, sym, arith, leb,
  ◌==◌, ◌↔◌, inl, inr, ◌⊎◌,
}
use txova_go_db.Text.{Text, Lacks}

is_letter : ℕ → Bool
is_letter c = (leb b'a' c && leb c b'z') || (leb b'A' c && leb c b'Z')

-- `[a-zA-Z_]`
unfoldable pub is_start : ℕ → Bool
unfolding is_letter
is_start c = is_letter c || c == b'_'

-- `[a-zA-Z0-9_]`
unfoldable pub is_part : ℕ → Bool
unfolding is_letter
is_part c = is_letter c || (leb b'0' c && leb c b'9') || c == b'_'

-- `[a-zA-Z0-9_]*$`
word_end : Text → Bool
word_end [] = true
word_end (c ∷ s) = is_part c && word_end s

-- `[a-zA-Z_][a-zA-Z0-9_]*$`
identifier_end : Text → Bool
identifier_end [] = false
identifier_end (c ∷ s) = is_start c && word_end s

-- `[a-zA-Z0-9_]*(\.[a-zA-Z_][a-zA-Z0-9_]*)?$`
name_end : Text → Bool
name_end [] = true
name_end (c ∷ s) = (is_part c && name_end s) || (c == b'.' && identifier_end s)

-- `columnNameRegex.MatchString`
unfoldable pub column_name_matches : Text → Bool
unfolding is_start is_part word_end identifier_end name_end
column_name_matches [] = false
column_name_matches (c ∷ s) = is_start c && name_end s

abbrev pub IsWord : Text → Type 0
IsWord = All (λ c. is_part c ≡ true)

-- A letter or underscore, then letters, digits and underscores.
abbrev pub IsIdentifier : Text → Type 0
IsIdentifier [] = ⊥
IsIdentifier (c ∷ s) = (is_start c ≡ true) × IsWord s

-- An identifier, or two with a dot between them.
pub data IsName (s : Text) : Type 0 where
  plain : IsIdentifier s → IsName s
  qualified : (a b : Text) → s ≡ a ++ b'.' ∷ b → IsIdentifier a → IsIdentifier b → IsName s

word_end-IsWord : (s : Text) → word_end s ≡ true → IsWord s
unfolding word_end
word_end-IsWord [] h = tt
word_end-IsWord (c ∷ s) h = ground (arith, word_end-IsWord s)

IsWord-word_end : (s : Text) → IsWord s → word_end s ≡ true
unfolding word_end
IsWord-word_end [] h = refl
IsWord-word_end (c ∷ s) (hc, hs) = ground (arith, IsWord-word_end s hs)

identifier_end-IsIdentifier : (s : Text) → identifier_end s ≡ true → IsIdentifier s
unfolding identifier_end
identifier_end-IsIdentifier [] h = cc
identifier_end-IsIdentifier (c ∷ s) h = ground (arith, word_end-IsWord s)

IsIdentifier-identifier_end : (s : Text) → IsIdentifier s → identifier_end s ≡ true
unfolding identifier_end
IsIdentifier-identifier_end [] h = absurd h
IsIdentifier-identifier_end (c ∷ s) (hc, hs) = ground (arith, IsWord-word_end s hs)

-- What may stand behind the first code point: a word, or a word, a dot and an identifier.
data IsTail (s : Text) : Type 0 where
  word : IsWord s → IsTail s
  dotted : (a b : Text) → s ≡ a ++ b'.' ∷ b → IsWord a → IsIdentifier b → IsTail s

IsTail-cons : (c : ℕ) (s : Text) → is_part c ≡ true → IsTail s → IsTail (c ∷ s)
IsTail-cons c s hc (word h) = word (hc, h)
IsTail-cons c s hc (dotted a b e ha hb) = dotted (c ∷ a) b (cc) (hc, ha) hb

and-true : (a b : Bool) → (a && b) ≡ true → (a ≡ true) × (b ≡ true)
and-true a b h = ground arith

or-true : (a b : Bool) → (a || b) ≡ true → (a ≡ true) ⊎ (b ≡ true)
or-true true b h = inl refl
or-true false b h = inr h

name_end-IsTail : (s : Text) → name_end s ≡ true → IsTail s
unfolding name_end
name_end-IsTail [] h = word tt
name_end-IsTail (c ∷ s) h =
    elim (or-true (is_part c && name_end s) (c == b'.' && identifier_end s) h) [
      | inl p ↦
          let (hc, hs) = and-true (is_part c) (name_end s) p in
          IsTail-cons c s hc (name_end-IsTail s hs)
      | inr p ↦
          let (hc, hs) = and-true (c == b'.') (identifier_end s) p in
          dotted [] s (ground arith) tt (identifier_end-IsIdentifier s hs)
    ]

name_end-word : (s : Text) → IsWord s → name_end s ≡ true
unfolding name_end
name_end-word [] h = refl
name_end-word (c ∷ s) (hc, hs) = ground (arith, name_end-word s hs)

name_end-dotted : (a b : Text) → IsWord a → IsIdentifier b → name_end (a ++ b'.' ∷ b) ≡ true
unfolding name_end
name_end-dotted [] b ha hb = ground (arith, IsIdentifier-identifier_end b hb)
name_end-dotted (c ∷ a) b (hc, ha) hb = ground (arith, name_end-dotted a b ha hb)

matches-IsName : (s : Text) → column_name_matches s ≡ true → IsName s
unfolding column_name_matches
matches-IsName [] h = cc
matches-IsName (c ∷ s) h =
    let (hc, hs) = and-true (is_start c) (name_end s) h in go hc (name_end-IsTail s hs)
  where
    go : is_start c ≡ true → IsTail s → IsName (c ∷ s)
    go hc (word w) = plain (hc, w)
    go hc (dotted a b e ha hb) = qualified (c ∷ a) b (cc) (hc, ha) hb

IsIdentifier-matches : (s : Text) → IsIdentifier s → column_name_matches s ≡ true
unfolding column_name_matches
IsIdentifier-matches [] h = absurd h
IsIdentifier-matches (c ∷ s) (hc, hs) = ground (arith, name_end-word s hs)

qualified-matches :
    (a b : Text) → IsIdentifier a → IsIdentifier b → column_name_matches (a ++ b'.' ∷ b) ≡ true
unfolding column_name_matches
qualified-matches [] b ha hb = absurd ha
qualified-matches (c ∷ a) b (hc, ha) hb = ground (arith, name_end-dotted a b ha hb)

IsName-matches : (s : Text) → IsName s → column_name_matches s ≡ true
IsName-matches s (plain h) = IsIdentifier-matches s h
IsName-matches s (qualified a b e ha hb) = rw e (qualified-matches a b ha hb)

-- The regular expression accepts exactly the identifiers and the pairs of identifiers with a dot.
pub column_name_matches_iff : (s : Text) → (column_name_matches s ≡ true) ↔ IsName s
column_name_matches_iff s = (matches-IsName s, IsName-matches s)

-- A code point that is neither a letter, a digit, an underscore nor a dot.
abbrev pub IsForeign : ℕ → Type 0
IsForeign b = (is_part b ≡ false) × (b ≢ b'.')

IsWord-Lacks : (b : ℕ) (s : Text) → is_part b ≡ false → IsWord s → Lacks b s
IsWord-Lacks b [] hb h = tt
IsWord-Lacks b (c ∷ s) hb (hc, hs) = (λ e. cc, IsWord-Lacks b s hb hs)

IsIdentifier-IsWord : (s : Text) → IsIdentifier s → IsWord s
unfolding is_start is_part
IsIdentifier-IsWord [] h = absurd h
IsIdentifier-IsWord (c ∷ s) (hc, hs) = (ground arith, hs)

IsName-Lacks : (b : ℕ) (s : Text) → IsForeign b → IsName s → Lacks b s
IsName-Lacks b s (hp, hd) (plain h) = IsWord-Lacks b s hp (IsIdentifier-IsWord s h)
IsName-Lacks b s (hp, hd) (qualified x y e hx hy) = rw e (
    All-append _ x _ (IsWord-Lacks b x hp (IsIdentifier-IsWord x hx))
      ((λ e. hd (sym e)), IsWord-Lacks b y hp (IsIdentifier-IsWord y hy)))

-- An accepted name holds no other code point: no space, quote, semicolon, `?` or `$`.
pub matches-Lacks : (b : ℕ) (s : Text) → IsForeign b → column_name_matches s ≡ true → Lacks b s
matches-Lacks b s hb h = IsName-Lacks b s hb (matches-IsName s h)
