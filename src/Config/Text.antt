-- ===== src/Config/Text.antt =====
-- What internal/config takes from Go's strings package. A text is the list of its code points.
use Prim.Native.Char.{code}
use Prim.Native.String.{String}
use flintlock_runner.Prelude.{
  ℕ, zero, suc, ◌≡◌, refl, Bool, true, not, ◌&&◌, ◌||◌, List, [], ◌∷◌, ◌++◌, Option, none, some,
  arith, leb, ◌==◌, if◌then◌else◌, length, any, Bool-cases, inl, inr,
}

abbrev pub Text : Type 0
Text = List ℕ

-- The code points of a Go string, as far as it is valid UTF-8.
abbrev pub codes : String → Text
codes String.[] = []
codes (String.◌∷◌ c s) = code c ∷ codes s

-- `unicode.IsSpace`
unfoldable pub is_space : ℕ → Bool
is_space c =
    (leb 9 c && leb c 13)
    || c == 32
    || c == 0x85
    || c == 0xa0
    || c == 0x1680
    || (leb 0x2000 c && leb c 0x200a)
    || c == 0x2028
    || c == 0x2029
    || c == 0x202f
    || c == 0x205f
    || c == 0x3000

unfoldable pub trim_left : Text → Text
unfolding is_space
trim_left [] = []
trim_left (c ∷ s) = let rest = trim_left s in if is_space c then rest else c ∷ s

unfoldable pub trim_right : Text → Text
unfolding is_space
trim_right [] = []
trim_right (c ∷ s) = elim (trim_right s) [
  | [] ↦ if is_space c then [] else c ∷ []
  | d ∷ rest ↦ c ∷ d ∷ rest
]

-- `strings.TrimSpace`
unfoldable pub trim : Text → Text
unfolding trim_left trim_right
trim s = trim_right (trim_left s)

-- `strings.LastIndex` of one character, where none is -1.
unfoldable pub last_index : ℕ → Text → Option ℕ
last_index c [] = none
last_index c (d ∷ s) = elim (last_index c s) [
  | some i ↦ some (suc i)
  | none ↦ if d == c then some 0 else none
]

-- `s[:n]` and `s[n:]`
unfoldable pub take : ℕ → Text → Text
take zero s = []
take (suc n) [] = []
take (suc n) (c ∷ s) = c ∷ take n s

unfoldable pub drop : ℕ → Text → Text
drop zero s = s
drop (suc n) [] = []
drop (suc n) (c ∷ s) = drop n s

-- `strings.Cut` at one character
unfoldable pub cut : ℕ → Text → Option (Text × Text)
cut c [] = none
cut c (d ∷ s) =
    let rest = cut c s in
    if d == c
    then some ([], s)
    else elim rest [ none ↦ none | some (before, after) ↦ some (d ∷ before, after) ]

-- The character is not in the text.
abbrev pub lacks : ℕ → Text → Bool
lacks c s = not (any (λ d. d == c) s)

pub take-append : (s t : Text) → take (length s) (s ++ t) ≡ s
unfolding take
take-append [] t = refl
take-append (c ∷ s) t = cc (take-append s t)

pub drop-append : (s : Text) (c : ℕ) (t : Text) → drop (suc (length s)) (s ++ c ∷ t) ≡ t
unfolding drop
drop-append [] c t = refl
drop-append (d ∷ s) c t = drop-append s c t

pub last_index-lacks : (c : ℕ) (s : Text) → lacks c s ≡ true → last_index c s ≡ none
unfolding last_index
last_index-lacks c [] clean = refl
last_index-lacks c (d ∷ s) clean = ground (arith, last_index-lacks c s)

pub last_index-append :
    (c : ℕ) (s t : Text) → lacks c t ≡ true → last_index c (s ++ c ∷ t) ≡ some (length s)
unfolding last_index
last_index-append c [] t clean = ground (arith, last_index-lacks c t clean)
last_index-append c (d ∷ s) t clean = ground (arith, last_index-append c s t clean)

-- How a text falls apart at the last place of a character, if it has one.
pub data IsSplit (c : ℕ) (s : Text) : Type 0 where
  absent : lacks c s ≡ true → IsSplit c s
  apart : (before after : Text) → s ≡ before ++ c ∷ after → lacks c after ≡ true → IsSplit c s

IsSplit-cons : (c d : ℕ) (s : Text) → IsSplit c s → IsSplit c (d ∷ s)
IsSplit-cons c d s (absent clean) = elim (Bool-cases (d == c)) [
  | inl same ↦ apart [] s (ground (arith, same)) clean
  | inr other ↦ absent (ground (arith, other, clean))
]
IsSplit-cons c d s (apart before after at clean) = apart (d ∷ before) after (cc at) clean

pub split : (c : ℕ) (s : Text) → IsSplit c s
split c [] = absent refl
split c (d ∷ s) = IsSplit-cons c d s (split c s)
