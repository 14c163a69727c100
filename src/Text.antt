-- ===== src/Text.antt =====
-- Go's strings as lists of code points, and what the SDK uses of the packages `strings`, `unicode`
-- and `strconv`. Bytes that are no UTF-8 are not modelled.
pub mod Laws
pub mod Maps
use Prim.Native.Char.{code}
use forward_go_sdk.Prelude.{
  ℕ, zero, suc, ◌+◌, ◌-◌, ◌*◌, ◌==◌, String, Bool, true, false, ◌&&◌, ◌||◌, not, Option, none, some,
  List, [], ◌∷◌, ◌++◌, map, ltb, leb, if◌then◌else◌,
}
use forward_go_sdk.Prelude.Int.{ℤ, pos, negsuc, max_int64}

abbrev pub Text : Type 0
Text = List ℕ

-- The code points of a literal.
abbrev pub codes : String → Text
codes String.[] = []
codes (String.◌∷◌ c s) = code c ∷ codes s

unfoldable pub text_eq : Text → Text → Bool
text_eq [] [] = true
text_eq [] (_ ∷ _) = false
text_eq (_ ∷ _) [] = false
text_eq (a ∷ s) (b ∷ t) = a == b && text_eq s t

unfoldable pub is_empty : Text → Bool
is_empty [] = true
is_empty (_ ∷ _) = false

unfoldable pub is_member : Text → List Text → Bool
unfolding text_eq
is_member t [] = false
is_member t (s ∷ ss) = text_eq t s || is_member t ss

-- unicode.IsSpace
unfoldable pub is_space : ℕ → Bool
is_space c =
    (leb 9 c && leb c 13)
    || c == 32
    || c == 0x85
    || c == 0xa0
    || c == 0x1680
    || (leb 0x2000 c && leb c 0x200a)
    || c == 0x2028
    || c == 0x2029
    || c == 0x202f
    || c == 0x205f
    || c == 0x3000

unfoldable pub trim_left : Text → Text
unfolding is_space
trim_left [] = []
trim_left (c ∷ s) = if is_space c then trim_left s else c ∷ s

-- The text without the white space at its end.
unfoldable pub trim_right : Text → Text
unfolding is_space is_empty
trim_right [] = []
trim_right (c ∷ s) = let rest = trim_right s in if is_empty rest && is_space c then [] else c ∷ rest

-- strings.TrimSpace
unfoldable pub trim_space : Text → Text
unfolding trim_left trim_right
trim_space s = trim_right (trim_left s)

-- strings.HasPrefix
unfoldable pub has_prefix : Text → Text → Bool
has_prefix s [] = true
has_prefix [] (_ ∷ _) = false
has_prefix (a ∷ s) (b ∷ p) = a == b && has_prefix s p

-- strings.Split by one character; `segment` is the one that is being read.
unfoldable pub split_from : ℕ → Text → Text → List Text
split_from separator segment [] = segment ∷ []
split_from separator segment (c ∷ s) =
    let next = split_from separator [] s in
    let on = split_from separator (segment ++ c ∷ []) s in
    if c == separator then segment ∷ next else on

unfoldable pub split : ℕ → Text → List Text
unfolding split_from
split separator = split_from separator []

-- strings.Cut by one character
unfoldable pub cut : ℕ → Text → Option (Text × Text)
cut separator [] = none
cut separator (c ∷ s) =
    let rest = cut separator s in
    if c == separator
    then some ([], s)
    else elim rest [ none ↦ none | some (before, after) ↦ some (c ∷ before, after) ]

-- strings.Contains
unfoldable pub contains : Text → Text → Bool
unfolding has_prefix is_empty
contains [] p = is_empty p
contains (c ∷ s) p = has_prefix (c ∷ s) p || contains s p

-- unicode.ToUpper, as far as an upper-case ASCII text can tell: the two other letters whose upper
-- case is in ASCII are the dotless i and the long s.
unfoldable pub to_upper_code : ℕ → ℕ
to_upper_code c =
    if leb b'a' c && leb c b'z'
    then c - 32
    else if c == 0x131
    then b'I'
    else if c == 0x17f
    then b'S'
    else c

unfoldable pub to_upper : Text → Text
unfolding to_upper_code
to_upper s = map to_upper_code s

-- unicode.ToLower, as far as a lower-case ASCII text can tell.
unfoldable pub to_lower_code : ℕ → ℕ
to_lower_code c =
    if leb b'A' c && leb c b'Z'
    then c + 32
    else if c == 0x130
    then b'i'
    else if c == 0x212a
    then b'k'
    else c

unfoldable pub to_lower : Text → Text
unfolding to_lower_code
to_lower s = map to_lower_code s

-- The least code of the letters that fold to the same one, for ASCII letters.
unfoldable pub fold_code : ℕ → ℕ
fold_code c =
    if leb b'a' c && leb c b'z'
    then c - 32
    else if c == 0x17f
    then b'S'
    else if c == 0x212a
    then b'K'
    else c

-- strings.EqualFold, where one side is in ASCII.
unfoldable pub equal_fold : Text → Text → Bool
unfolding fold_code text_eq
equal_fold s t = text_eq (map fold_code s) (map fold_code t)

is_digit : ℕ → Bool
is_digit c = leb b'0' c && leb c b'9'

-- The value of a run of decimal digits; `none` where another character stands.
digits_value : ℕ → Text → Option ℕ
unfolding is_digit
digits_value n [] = some n
digits_value n (c ∷ s) =
    let rest = digits_value (n * 10 + (c - b'0')) s in if is_digit c then rest else none

-- An empty text has no value.
unfoldable pub parse_nat : Text → Option ℕ
unfolding digits_value
parse_nat [] = none
parse_nat (c ∷ s) = digits_value 0 (c ∷ s)

abbrev in_range : Bool → Option ℕ → Option ℤ
in_range negative none = none
in_range true (some zero) = some (pos 0)
in_range true (some (suc n)) = if leb n max_int64 then some (negsuc n) else none
in_range false (some n) = if leb n max_int64 then some (pos n) else none

-- strconv.ParseInt(s, 10, 64): an optional sign and digits, in the range of an int64.
unfoldable pub parse_int : Text → Option ℤ
unfolding parse_nat
parse_int [] = none
parse_int (c ∷ s) =
    if c == b'-'
    then in_range true (parse_nat s)
    else if c == b'+'
    then in_range false (parse_nat s)
    else in_range false (parse_nat (c ∷ s))
