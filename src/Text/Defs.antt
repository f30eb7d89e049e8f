-- ===== src/Text/Defs.antt =====
-- The string functions of Go's standard library that the program calls.
use Prim.Native.Char.{code}
use Prim.Native.String.{String}
use bc_abe.Common.{
  ℕ, zero, suc, ◌+◌, ◌-◌, ◌*◌, ◌/◌, ◌%◌, ◌^◌, Bool, true, false, ◌&&◌, ◌||◌, List, [], ◌∷◌, ◌++◌,
  map, Option, none, some, ltb, leb, ◌==◌, if◌then◌else◌, is_empty,
}
use mathlib.Core.List.{foldl}
use Prim.Native.Nat.{min}

abbrev pub Text : Type 0
Text = List ℕ

-- The code points of a literal.
abbrev pub codes : String → Text
codes String.[] = []
codes (String.◌∷◌ c s) = code c ∷ codes s

infix 50 ◌=ᵗ◌
abbrev pub ◌=ᵗ◌ : Text → Text → Bool
[] =ᵗ [] = true
[] =ᵗ (d ∷ t) = false
(c ∷ s) =ᵗ [] = false
(c ∷ s) =ᵗ (d ∷ t) = c == d && s =ᵗ t

-- `unicode.IsSpace`.
unfoldable pub is_space : ℕ → Bool
is_space c =
    (leb 9 c && leb c 13)
    || c == 0x20
    || c == 0x85
    || c == 0xA0
    || c == 0x1680
    || (leb 0x2000 c && leb c 0x200A)
    || c == 0x2028
    || c == 0x2029
    || c == 0x202F
    || c == 0x205F
    || c == 0x3000

unfoldable pub trim_left : Text → Text
trim_left [] = []
trim_left (c ∷ s) = if is_space c then trim_left s else c ∷ s

-- A character before a text whose trailing spaces are gone.
unfoldable pub before_trimmed : ℕ → Text → Text
before_trimmed c [] = if is_space c then [] else c ∷ []
before_trimmed c (d ∷ t) = c ∷ d ∷ t

unfoldable pub trim_right : Text → Text
unfolding before_trimmed
trim_right [] = []
trim_right (c ∷ s) = before_trimmed c (trim_right s)

-- `strings.TrimSpace`.
unfoldable pub trim_space : Text → Text
unfolding trim_left trim_right is_space
trim_space s = trim_right (trim_left s)

-- `unicode.ToLower`, on the letters whose lower case is a letter of ASCII: A to Z, U+0130 and
-- U+212A. Any other letter stays as it is; the program compares lower case with ASCII words only.
unfoldable pub lower : ℕ → ℕ
lower c =
    if leb b'A' c && leb c b'Z'
    then c + 32
    else if c == 0x130
    then b'i'
    else if c == 0x212A
    then b'k'
    else c

-- `strings.ToLower`.
unfoldable pub to_lower : Text → Text
unfolding lower
to_lower = map lower

-- The least member of a letter's folding orbit under `unicode.SimpleFold`, in lower case, for the
-- orbits that hold a letter of ASCII.
unfoldable pub fold : ℕ → ℕ
fold c =
    if leb b'A' c && leb c b'Z'
    then c + 32
    else if c == 0x17F
    then b's'
    else if c == 0x212A
    then b'k'
    else c

-- `strings.EqualFold(s, w)` for a `w` of ASCII letters.
unfoldable pub equal_fold : Text → Text → Bool
unfolding fold
equal_fold s w = map fold s =ᵗ map fold w

-- `strings.HasPrefix`.
unfoldable pub has_prefix : Text → Text → Bool
has_prefix s [] = true
has_prefix [] (d ∷ p) = false
has_prefix (c ∷ s) (d ∷ p) = c == d && has_prefix s p

-- `strings.HasSuffix`.
unfoldable pub has_suffix : Text → Text → Bool
has_suffix [] p = is_empty p
has_suffix (c ∷ s) p = (c ∷ s) =ᵗ p || has_suffix s p

-- `strings.Contains`.
unfoldable pub contains : Text → Text → Bool
unfolding has_prefix
contains [] p = is_empty p
contains (c ∷ s) p = has_prefix (c ∷ s) p || contains s p

-- `s[:i]` and `s[i+1:]` around the first character that passes the test, if there is one.
unfoldable pub cut_first : (ℕ → Bool) → Text → Option (Text × Text)
cut_first test [] = none
cut_first test (c ∷ s) = elim (test c) [
  | true ↦ some ([], s)
  | false ↦ elim (cut_first test s) [ none ↦ none | some (a, b) ↦ some (c ∷ a, b) ]
]

-- The same around the last one.
unfoldable pub cut_last : (ℕ → Bool) → Text → Option (Text × Text)
cut_last test [] = none
cut_last test (c ∷ s) = elim (cut_last test s) [
  | some (a, b) ↦ some (c ∷ a, b)
  | none ↦ if test c then some ([], s) else none
]

-- The text up to the first character of `cut`, as by `strings.IndexAny` and a slice.
unfoldable pub up_to : (ℕ → Bool) → Text → Text
up_to test [] = []
up_to test (c ∷ s) = if test c then [] else c ∷ up_to test s

-- `strings.Split(s, sep)` for a separator of one character.
unfoldable pub split_on : ℕ → Text → Text → List Text
split_on sep cur [] = cur ∷ []
split_on sep cur (c ∷ s) = elim (c == sep) [
  | true ↦ cur ∷ split_on sep [] s
  | false ↦ split_on sep (cur ++ c ∷ []) s
]

-- The number that decimal digits spell.
unfoldable pub decimal : Text → ℕ
decimal = foldl (λ n c. n * 10 + (c - b'0')) 0

abbrev pub max_int : ℕ
max_int = 2 ^ 63 - 1

-- `value, _ := strconv.Atoi(s)` on decimal digits: out of range, the value is the greatest `int`.
unfoldable pub atoi : Text → ℕ
unfolding decimal
atoi s = min (decimal s) max_int

-- The decimal digits of `n` before `out`, on fuel.
unfoldable pub digits : ℕ → ℕ → Text → Text
digits zero n out = out
digits (suc fuel) n out = elim (ltb n 10) [
  | true ↦ (b'0' + n) ∷ out
  | false ↦ digits fuel (n / 10) ((b'0' + n % 10) ∷ out)
]

-- `fmt.Sprintf("%d", n)`.
unfoldable pub print_nat : ℕ → Text
unfolding digits
print_nat n = digits (suc n) n []
