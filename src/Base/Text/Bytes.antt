-- ===== src/Base/Text/Bytes.antt =====
-- What a Go string begins with, by its bytes and by its characters.
use Prim.Native.Nat.{ℕ, ◌+◌, ◌/◌}
use Prim.Native.Char.{code}
use Prim.Native.String.{String}
use mathlib.Core.Path.{◌≡◌, refl, ap}
use mathlib.Core.Logic.{◌≢◌, inl, inr}
use mathlib.Core.Bool.{true}
use mathlib.Core.List
use mathlib.Core.List.{List, [], ◌∷◌, ◌++◌}
use native.Mathlib.Omega.{arith}
use shipping_core.Base.Tests.{ltb, Bool-cases}
use shipping_core.Base.Text.{codes, bytes, has_prefix, utf8_codes, codes_prefix}

head_or : ℕ → List ℕ → ℕ
head_or d [] = d
head_or d (x ∷ xs) = x

tail_of : List ℕ → List ℕ
tail_of [] = []
tail_of (x ∷ xs) = xs

-- A byte that is an asterisk is a character of its own.
utf8-star :
    (n : ℕ) (ns rest : List ℕ) → utf8_codes (n ∷ ns) ≡ 42 ∷ rest → (n ≡ 42) × (utf8_codes ns ≡ rest)
unfolding utf8_codes head_or tail_of
utf8-star n ns rest h = elim (Bool-cases (ltb n 0x80)) [
  | inl e ↦
      let one : n ∷ utf8_codes ns ≡ 42 ∷ rest = rw e at h in (ap (head_or 0) one, ap tail_of one)
  | inr e ↦ elim (Bool-cases (ltb n 0x800)) [
    | inl d ↦ let big : 0xc0 + n / 64 ≡ 42 = ap (head_or 0) (rw (e, d) at h) in ground arith
    | inr d ↦ elim (Bool-cases (ltb n 0x10000)) [
      | inl c ↦ let big : 0xe0 + n / 4096 ≡ 42 = ap (head_or 0) (rw (e, d, c) at h) in ground arith
      | inr c ↦
          let big : 0xf0 + n / 262144 ≡ 42 = ap (head_or 0) (rw (e, d, c) at h) in ground arith
    ]
  ]
]

star-prefix :
    (ns p rest : List ℕ)
    → utf8_codes ns ≡ 42 ∷ rest
    → ((ms : List ℕ) → utf8_codes ms ≡ rest → codes_prefix p ms ≡ true)
    → codes_prefix (42 ∷ p) ns ≡ true
unfolding codes_prefix utf8_codes
star-prefix [] p rest h k = cc
star-prefix (n ∷ ns) p rest h k =
    let (first, more) = utf8-star n ns rest h in rw (first, k ns more) refl

-- A text whose bytes begin with four asterisks begins with four asterisks.
pub has_prefix-stars :
    (s : String) (rest : List ℕ) → bytes s ≡ 42 ∷ 42 ∷ 42 ∷ 42 ∷ rest → has_prefix s "****" ≡ true
unfolding bytes has_prefix
has_prefix-stars s rest h =
    star-prefix (codes s) (42 ∷ 42 ∷ 42 ∷ []) (42 ∷ 42 ∷ 42 ∷ rest) h (λ a ha.
      star-prefix a (42 ∷ 42 ∷ []) (42 ∷ 42 ∷ rest) ha (λ b hb.
        star-prefix b (42 ∷ []) (42 ∷ rest) hb (λ c hc. star-prefix c [] rest hc (λ d hd. refl))))

utf8-not_nil : (n : ℕ) (ns : List ℕ) → utf8_codes (n ∷ ns) ≢ []
unfolding utf8_codes
utf8-not_nil n ns h = elim (Bool-cases (ltb n 0x80)) [
  | inl e ↦ let no : n ∷ utf8_codes ns ≡ [] = rw e at h in cc
  | inr e ↦ elim (Bool-cases (ltb n 0x800)) [
    | inl d ↦ List.cons≢nil (rw (e, d) at h)
    | inr d ↦ elim (Bool-cases (ltb n 0x10000)) [
      | inl c ↦ List.cons≢nil (rw (e, d, c) at h)
      | inr c ↦ List.cons≢nil (rw (e, d, c) at h)
    ]
  ]
]

-- Only the empty text has no bytes.
pub bytes-nil : (s : String) → bytes s ≡ [] → s ≡ ""
unfolding bytes
bytes-nil String.[] h = refl
bytes-nil (String.◌∷◌ c s) h = absurd (utf8-not_nil (code c) (codes s) h)
