-- ===== src/Base/Text.antt =====
-- The functions of Go's `strings` and `strconv` that the services use, on the native `String`.
-- Case mapping yields code points: its results are only compared with ASCII texts, so letters
-- whose image lies outside ASCII are left as they are.
pub mod Trim
pub mod Bytes
pub mod Blanks
use Prim.Native.Char.{Char, code}
use Prim.Native.Nat.{ℕ, zero, suc, ◌+◌, ◌-◌, ◌/◌, ◌%◌}
use Prim.Native.String
use Prim.Native.String.{String}
use mathlib.Core.Path.{◌≡◌, refl}
use mathlib.Core.Bool.{Bool, true, false, ◌&&◌, ◌||◌}
use mathlib.Core.List.{List, [], ◌∷◌, ◌++◌, map}
use shipping_core.Base.Tests.{◌==◌, ltb, leb, if◌then◌else◌}
pub use text.Mathlib.Text.{◌==◌ as str_eq}
pub use text.Mathlib.TextEquality.{eq_iff}

abbrev pub is_empty : String → Bool
is_empty String.[] = true
is_empty (String.◌∷◌ c s) = false

infixr 65 ◌+++◌
-- `a + b` on strings.
abbrev pub ◌+++◌ : String → String → String
a +++ b = String.◌++◌ a b

-- `unicode.IsSpace`
abbrev is_space_code : ℕ → Bool
is_space_code n =
    (leb 9 n && leb n 13)
    || n == 32
    || n == 0x85
    || n == 0xa0
    || n == 0x1680
    || (leb 0x2000 n && leb n 0x200a)
    || n == 0x2028
    || n == 0x2029
    || n == 0x202f
    || n == 0x205f
    || n == 0x3000

pub is_space : Char → Bool
is_space c = is_space_code (code c)

pub trim_left : String → String
trim_left String.[] = ""
trim_left (String.◌∷◌ c s) = let rest = trim_left s in if is_space c then rest else String.◌∷◌ c s

abbrev pub snoc_trimmed : Bool → Char → String → String
snoc_trimmed drop c String.[] = if drop then "" else String.◌∷◌ c ""
snoc_trimmed drop c (String.◌∷◌ d s) = String.◌∷◌ c (String.◌∷◌ d s)

pub trim_right : String → String
trim_right String.[] = ""
trim_right (String.◌∷◌ c s) = snoc_trimmed (is_space c) c (trim_right s)

-- `strings.TrimSpace`
unfoldable pub trim_space : String → String
unfolding trim_left trim_right is_space
trim_space s = trim_right (trim_left s)

abbrev pub codes : String → List ℕ
codes String.[] = []
codes (String.◌∷◌ c s) = code c ∷ codes s

unfoldable pub codes_eq : List ℕ → List ℕ → Bool
codes_eq [] [] = true
codes_eq (a ∷ as') (b ∷ bs) = a == b && codes_eq as' bs
codes_eq _ _ = false

unfoldable pub codes_prefix : List ℕ → List ℕ → Bool
codes_prefix [] t = true
codes_prefix (a ∷ p) [] = false
codes_prefix (a ∷ p) (b ∷ t) = a == b && codes_prefix p t

-- U+212A and U+0130 are the letters outside ASCII whose lower case is an ASCII letter.
unfoldable pub lower_code : ℕ → ℕ
lower_code n =
    if leb 65 n && leb n 90
    then n + 32
    else if n == 0x212a
    then 107
    else if n == 0x130
    then 105
    else n

-- U+017F and U+0131 are the letters outside ASCII whose upper case is an ASCII letter.
upper_code : ℕ → ℕ
upper_code n =
    if leb 97 n && leb n 122
    then n - 32
    else if n == 0x17f
    then 83
    else if n == 0x131
    then 73
    else n

-- Simple case folding; U+212A folds with `k` and U+017F with `s`.
unfoldable pub fold_code : ℕ → ℕ
fold_code n =
    if leb 65 n && leb n 90
    then n + 32
    else if n == 0x212a
    then 107
    else if n == 0x17f
    then 115
    else n

-- `strings.ToLower(s) == t`, at an ASCII text `t`.
unfoldable pub lower_is : String → String → Bool
unfolding codes_eq lower_code
lower_is s t = codes_eq (map lower_code (codes s)) (codes t)

-- `strings.HasPrefix(strings.ToUpper(s), t)`, at an ASCII text `t`.
unfoldable pub upper_has_prefix : String → String → Bool
unfolding codes_prefix upper_code
upper_has_prefix s t = codes_prefix (codes t) (map upper_code (codes s))

-- `strings.EqualFold(s, t)`, at an ASCII text `t`.
unfoldable pub equal_fold : String → String → Bool
unfolding codes_eq fold_code
equal_fold s t = codes_eq (map fold_code (codes s)) (map fold_code (codes t))

-- `strings.HasPrefix(s, t)`
unfoldable pub has_prefix : String → String → Bool
unfolding codes_prefix
has_prefix s t = codes_prefix (codes t) (codes s)

contains_codes : List ℕ → List ℕ → Bool
contains_codes t [] = codes_prefix t []
contains_codes t (c ∷ s) = codes_prefix t (c ∷ s) || contains_codes t s

-- `strings.Contains(s, t)`
unfoldable pub str_contains : String → String → Bool
unfolding contains_codes codes_prefix
str_contains s t = contains_codes (codes t) (codes s)

-- The first `n` characters, `string([]rune(s)[:n])`.
unfoldable pub take_chars : ℕ → String → String
take_chars zero s = ""
take_chars (suc n) String.[] = ""
take_chars (suc n) (String.◌∷◌ c s) = String.◌∷◌ c (take_chars n s)

abbrev pub char_count : String → ℕ
char_count String.[] = 0
char_count (String.◌∷◌ c s) = suc (char_count s)

digit : ℕ → String
digit n =
    if n == 0
    then "0"
    else if n == 1
    then "1"
    else if n == 2
    then "2"
    else if n == 3
    then "3"
    else if n == 4
    then "4"
    else if n == 5
    then "5"
    else if n == 6
    then "6"
    else if n == 7
    then "7"
    else if n == 8
    then "8"
    else "9"

decimal_fuel : ℕ → ℕ → String
decimal_fuel zero n = ""
decimal_fuel (suc f) n =
    let more = decimal_fuel f (n / 10) in if ltb n 10 then digit n else more +++ digit (n % 10)

-- `%d` of a number below 2 ^ 64, which has at most 20 digits.
unfoldable pub decimal : ℕ → String
unfolding decimal_fuel digit
decimal n = decimal_fuel 20 n

-- `firstNonEmptyTrim`
unfoldable pub first_non_empty_trim : List String → String
first_non_empty_trim [] = ""
first_non_empty_trim (v ∷ vs) =
    let rest = first_non_empty_trim vs in if is_empty (trim_space v) then rest else trim_space v

trim_tests : trim_space " \t a b \n" ≡ "a b"
unfolding trim_space
trim_tests = refl

decimal_test : decimal 1024 ≡ "1024"
unfolding decimal
decimal_test = refl

contains_test : str_contains "该运单已发货" "已发货" ≡ true
unfolding str_contains
contains_test = refl

abbrev utf8_code : ℕ → List ℕ
utf8_code n =
    if ltb n 0x80
    then n ∷ []
    else if ltb n 0x800
    then (0xc0 + n / 64) ∷ (0x80 + n % 64) ∷ []
    else if ltb n 0x10000
    then (0xe0 + n / 4096) ∷ (0x80 + n / 64 % 64) ∷ (0x80 + n % 64) ∷ []
    else (0xf0 + n / 262144) ∷ (0x80 + n / 4096 % 64) ∷ (0x80 + n / 64 % 64) ∷ (0x80 + n % 64) ∷ []

utf8_codes : List ℕ → List ℕ
utf8_codes [] = []
utf8_codes (n ∷ ns) = utf8_code n ++ utf8_codes ns

-- The bytes of a Go string.
unfoldable pub bytes : String → List ℕ
unfolding utf8_codes
bytes s = utf8_codes (codes s)

abbrev pub take_bytes : ℕ → List ℕ → List ℕ
take_bytes zero bs = []
take_bytes (suc n) [] = []
take_bytes (suc n) (b ∷ bs) = b ∷ take_bytes n bs

-- `if len(s) > n { s = s[:n] }`
unfoldable pub cut_bytes : ℕ → String → List ℕ
cut_bytes n s = take_bytes n (bytes s)
