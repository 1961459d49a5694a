-- ===== src/Text.antt =====
-- Texts as lists of code points, with what the code uses of Go's `strings` and `fmt` on them.
-- A text that is examined byte by byte is a list of bytes.
pub mod Decimal
pub mod Equality
pub mod Members
pub mod Distinct
use Prim.Native.Char.{code}
use txova_go_db.Prelude.{
  ℕ, ◌+◌, ◌-◌, ◌≢◌, String, Bool, true, false, ◌&&◌, ◌||◌, List, [], ◌∷◌, ◌++◌, All, leb, ◌==◌,
  if◌then◌else◌,
}

abbrev pub Text : Type 0
Text = List ℕ

-- The code points of a literal.
abbrev pub codes : String → Text
codes String.[] = []
codes (String.◌∷◌ c s) = code c ∷ codes s

-- `s == t`
unfoldable pub text_eq : Text → Text → Bool
text_eq [] [] = true
text_eq [] (d ∷ t) = false
text_eq (c ∷ s) [] = false
text_eq (c ∷ s) (d ∷ t) = c == d && text_eq s t

-- `strings.Join`
unfoldable pub tail_of_join : Text → List Text → Text
tail_of_join sep [] = []
tail_of_join sep (p ∷ ps) = sep ++ (p ++ tail_of_join sep ps)

unfoldable pub join : List Text → Text → Text
unfolding tail_of_join
join [] sep = []
join (p ∷ ps) sep = p ++ tail_of_join sep ps

-- The code points that `unicode.IsSpace` accepts.
unfoldable pub is_space : ℕ → Bool
is_space c =
    (leb 9 c && leb c 13)
    || c == 32
    || c == 0x85
    || c == 0xA0
    || c == 0x1680
    || (leb 0x2000 c && leb c 0x200A)
    || c == 0x2028
    || c == 0x2029
    || c == 0x202F
    || c == 0x205F
    || c == 0x3000

trim_left : Text → Text
trim_left [] = []
trim_left (c ∷ s) = let rest = trim_left s in if is_space c then rest else c ∷ s

-- The text without its trailing spaces: a space is dropped if nothing is left behind it.
trim_right : Text → Text
trim_right [] = []
trim_right (c ∷ s) =
    let rest = trim_right s in if is_space c && text_eq rest [] then [] else c ∷ rest

-- `strings.TrimSpace`
unfoldable pub trim_space : Text → Text
unfolding trim_left trim_right is_space text_eq
trim_space s = trim_right (trim_left s)

upper_rune : ℕ → ℕ
upper_rune c = if leb b'a' c && leb c b'z' then c - 32 else c

-- `strings.ToUpper` of an ASCII text.
unfoldable pub to_upper : Text → Text
unfolding upper_rune
to_upper [] = []
to_upper (c ∷ s) = upper_rune c ∷ to_upper s

-- The text does not hold the code point.
abbrev pub Lacks : ℕ → Text → Type 0
Lacks b = All (λ c. c ≢ b)
