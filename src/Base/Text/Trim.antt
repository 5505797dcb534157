-- ===== src/Base/Text/Trim.antt =====
-- Trimming a trimmed text changes nothing.
use Prim.Native.Char.{Char}
use Prim.Native.String.{String}
use mathlib.Core.Path.{◌≡◌, refl, ◌∙◌, ap}
use mathlib.Core.Logic.{inl, inr}
use mathlib.Core.Bool.{Bool, true, false, not}
use shipping_core.Base.Tests.{Bool-cases}
use shipping_core.Base.Text.{is_space, trim_left, trim_right, snoc_trimmed, trim_space}

-- The text is empty or starts with no space.
abbrev starts : String → Bool
starts String.[] = true
starts (String.◌∷◌ c s) = not (is_space c)

starts-trim_left : (s : String) → starts (trim_left s) ≡ true
unfolding trim_left
starts-trim_left String.[] = refl
starts-trim_left (String.◌∷◌ c s) = elim (Bool-cases (is_space c)) [
  | inl e ↦ rw e (starts-trim_left s)
  | inr e ↦ rw (e, e)
]

trim_left-starts : (s : String) → starts s ≡ true → trim_left s ≡ s
unfolding trim_left
trim_left-starts String.[] h = refl
trim_left-starts (String.◌∷◌ c s) h = elim (Bool-cases (is_space c)) [
  | inl e ↦ cc (rw e at h)
  | inr e ↦ rw e
]

starts-snoc :
    (drop : Bool) (c : Char) (s : String)
    → is_space c ≡ false
    → drop ≡ false
    → starts (snoc_trimmed drop c s) ≡ true
starts-snoc drop c String.[] h e = rw (e, h)
starts-snoc drop c (String.◌∷◌ d s) h e = rw h

starts-trim_right : (s : String) → starts s ≡ true → starts (trim_right s) ≡ true
unfolding trim_right
starts-trim_right String.[] h = refl
starts-trim_right (String.◌∷◌ c s) h = elim (Bool-cases (is_space c)) [
  | inl e ↦ cc (rw e at h)
  | inr e ↦ starts-snoc (is_space c) c (trim_right s) e e
]

trim_right-snoc :
    (c : Char) (s : String)
    → trim_right s ≡ s
    → trim_right (snoc_trimmed (is_space c) c s) ≡ snoc_trimmed (is_space c) c s
unfolding trim_right
trim_right-snoc c String.[] h = elim (Bool-cases (is_space c)) [ inl e ↦ rw e | inr e ↦ rw (e, e) ]
trim_right-snoc c (String.◌∷◌ d s) h = ap (snoc_trimmed (is_space c) c) h

trim_right_idempotent : (s : String) → trim_right (trim_right s) ≡ trim_right s
unfolding trim_right
trim_right_idempotent String.[] = refl
trim_right_idempotent (String.◌∷◌ c s) = trim_right-snoc c (trim_right s) (trim_right_idempotent s)

pub trim_space_idempotent : (s : String) → trim_space (trim_space s) ≡ trim_space s
unfolding trim_space
trim_space_idempotent s =
    ap trim_right (
      trim_left-starts (trim_right (trim_left s))
        (starts-trim_right (trim_left s) (starts-trim_left s)))
    ∙ trim_right_idempotent (trim_left s)
