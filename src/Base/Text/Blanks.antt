-- ===== src/Base/Text/Blanks.antt =====
-- Space at the ends of a Go string that is known by its bytes.
use Prim.Native.Nat.{ℕ}
use mathlib.Core.Bool.{Bool, true, false, ◌&&◌, ◌||◌}
use mathlib.Core.List.{List, [], ◌∷◌}
use shipping_core.Base.Tests.{◌==◌, leb, if◌then◌else◌}

abbrev one_byte : ℕ → Bool
one_byte a = (leb 9 a && leb a 13) || a == 32

-- U+0085 and U+00A0
abbrev two_bytes : ℕ → ℕ → Bool
two_bytes a b = a == 0xc2 && (b == 0x85 || b == 0xa0)

-- U+1680, U+2000 to U+200A, U+2028, U+2029, U+202F, U+205F and U+3000
abbrev three_bytes : ℕ → ℕ → ℕ → Bool
three_bytes a b c =
    (a == 0xe1 && b == 0x9a && c == 0x80)
    || (a == 0xe2
        && b == 0x80
        && ((leb 0x80 c && leb c 0x8a) || c == 0xa8 || c == 0xa9 || c == 0xaf))
    || (a == 0xe2 && b == 0x81 && c == 0x9f)
    || (a == 0xe3 && b == 0x80 && c == 0x80)

-- The bytes after the space that they begin with.
unfoldable pub skip_blanks : List ℕ → List ℕ
skip_blanks [] = []
skip_blanks (a ∷ []) = if one_byte a then [] else a ∷ []
skip_blanks (a ∷ b ∷ []) =
    let one = skip_blanks (b ∷ []) in
    if one_byte a then one else if two_bytes a b then [] else a ∷ b ∷ []
skip_blanks (a ∷ b ∷ c ∷ rest) =
    let one = skip_blanks (b ∷ c ∷ rest) in
    let two = skip_blanks (c ∷ rest) in
    let three = skip_blanks rest in
    if one_byte a
    then one
    else if two_bytes a b
    then two
    else if three_bytes a b c
    then three
    else a ∷ b ∷ c ∷ rest

abbrev is_nil : List ℕ → Bool
is_nil [] = true
is_nil (a ∷ as') = false

-- Whether the bytes are space and nothing else.
unfoldable pub is_blank : List ℕ → Bool
unfolding skip_blanks
is_blank bs = is_nil (skip_blanks bs)
