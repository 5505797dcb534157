-- ===== src/Base/Order.antt =====
-- Insertion sort by a Boolean comparison, for the `ORDER BY` of a query.
use mathlib.Core.Bool.{Bool}
use mathlib.Core.List.{List, [], ◌∷◌, Memᴰ}
use mathlib.Core.Option.{Option, none, some, some-injective}
use mathlib.Core.Path.{◌≡◌, refl, subst}
use mathlib.Core.Logic.{◌⊎◌, inl, inr}
use Prim.Native.Nat.{ℕ, suc, ◌≤◌}
use native.Mathlib.Omega.{arith}
use shipping_core.Base.Tests.{ltb, if◌then◌else◌, Bool-cases}
use shipping_core.Base.Lists.{length, All}

-- `First` on an ordered query.
abbrev pub head_of {ℓ} : {A : Type ℓ} → List A → Option A
head_of [] = none
head_of (a ∷ rest) = some a

module _ {ℓ} {A : Type ℓ} (before : A → A → Bool) where
  pub insert_sorted : A → List A → List A
  insert_sorted a [] = a ∷ []
  insert_sorted a (x ∷ xs) = if before x a then x ∷ insert_sorted a xs else a ∷ x ∷ xs

  unfoldable pub order_by : List A → List A
  unfolding insert_sorted
  order_by [] = []
  order_by (x ∷ xs) = insert_sorted x (order_by xs)

  length-insert_sorted : (a : A) (xs : List A) → length (insert_sorted a xs) ≡ suc (length xs)
  unfolding insert_sorted
  length-insert_sorted a [] = refl
  length-insert_sorted a (x ∷ xs) = ground (arith, length-insert_sorted a xs)

  Memᴰ-insert_sorted : (a h : A) (xs : List A) → Memᴰ h (insert_sorted a xs) → (h ≡ a) ⊎ Memᴰ h xs
  unfolding insert_sorted
  Memᴰ-insert_sorted a h [] (Memᴰ.head e) = inl e
  Memᴰ-insert_sorted a h [] (Memᴰ.tail m) = inr m
  Memᴰ-insert_sorted a h (x ∷ xs) m = elim (Bool-cases (before x a)) [
    | inl e ↦ later (Memᴰ-insert_sorted a h xs) (rw e at m)
    | inr e ↦ split (rw e at m)
  ]
    where
      split : Memᴰ h (a ∷ x ∷ xs) → (h ≡ a) ⊎ Memᴰ h (x ∷ xs)
      split (Memᴰ.head e) = inl e
      split (Memᴰ.tail m) = inr m

      later :
          (Memᴰ h (insert_sorted a xs) → (h ≡ a) ⊎ Memᴰ h xs)
          → Memᴰ h (x ∷ insert_sorted a xs)
          → (h ≡ a) ⊎ Memᴰ h (x ∷ xs)
      later ih (Memᴰ.head e) = inr (Memᴰ.head e)
      later ih (Memᴰ.tail m) = elim (ih m) [ inl e ↦ inl e | inr k ↦ inr (Memᴰ.tail k) ]

  Memᴰ-order_by : (h : A) (xs : List A) → Memᴰ h (order_by xs) → Memᴰ h xs
  unfolding order_by
  Memᴰ-order_by h [] m = m
  Memᴰ-order_by h (x ∷ xs) m = elim (Memᴰ-insert_sorted x h (order_by xs) m) [
    | inl e ↦ Memᴰ.head e
    | inr k ↦ Memᴰ.tail (Memᴰ-order_by h xs k)
  ]

  head_of-Memᴰ : (h : A) (xs : List A) → head_of xs ≡ some h → Memᴰ h xs
  head_of-Memᴰ h [] e = cc
  head_of-Memᴰ h (x ∷ xs) e = Memᴰ.head cc

  -- The row that is found is one of the table.
  pub head-order_by-Memᴰ : (h : A) (xs : List A) → head_of (order_by xs) ≡ some h → Memᴰ h xs
  head-order_by-Memᴰ h xs e = Memᴰ-order_by h xs (head_of-Memᴰ h (order_by xs) e)

module _ {ℓ} {A : Type ℓ} (key : A → ℕ) where
  abbrev pub by_key : A → A → Bool
  by_key a b = ltb (key a) (key b)

  -- A bound on every key of the list is one of the keys of the sorted list.
  below-insert_sorted :
      (k : ℕ) (a : A) (xs : List A)
      → k ≤ key a
      → All (λ r. k ≤ key r) xs
      → All (λ r. k ≤ key r) (insert_sorted by_key a xs)
  unfolding insert_sorted
  below-insert_sorted k a [] h hs = (h, tt)
  below-insert_sorted k a (x ∷ xs) h hs = ground (arith, below-insert_sorted k a xs h hs.1)

  below-of-insert_sorted :
      (k : ℕ) (a : A) (xs : List A)
      → All (λ r. k ≤ key r) (insert_sorted by_key a xs)
      → (k ≤ key a) × All (λ r. k ≤ key r) xs
  unfolding insert_sorted
  below-of-insert_sorted k a [] h = h
  below-of-insert_sorted k a (x ∷ xs) h = elim (Bool-cases (by_key x a)) [
    | inl e ↦
        let (first, rest) : (k ≤ key x) × All (λ r. k ≤ key r) (insert_sorted by_key a xs) =
          rw e at h in
        let (p, q) = below-of-insert_sorted k a xs rest in (p, (first, q))
    | inr e ↦ rw e at h
  ]

  below-order_by :
      (k : ℕ) (xs : List A) → All (λ r. k ≤ key r) (order_by by_key xs) → All (λ r. k ≤ key r) xs
  unfolding order_by
  below-order_by k [] h = tt
  below-order_by k (x ∷ xs) h =
      let (a, b) = below-of-insert_sorted k x (order_by by_key xs) h in (a, below-order_by k xs b)

  below-weaken : (j k : ℕ) (xs : List A) → j ≤ k → All (λ r. k ≤ key r) xs → All (λ r. j ≤ key r) xs
  below-weaken j k [] h hs = tt
  below-weaken j k (x ∷ xs) h (a, hs) = (omega arith, below-weaken j k xs h hs)

  -- The head has the least key.
  abbrev IsLeast : List A → Type 0
  IsLeast [] = Unit
  IsLeast (x ∷ xs) = All (λ r. key x ≤ key r) xs

  insert_sorted-IsLeast : (a : A) (xs : List A) → IsLeast xs → IsLeast (insert_sorted by_key a xs)
  unfolding insert_sorted
  insert_sorted-IsLeast a [] h = tt
  insert_sorted-IsLeast a (x ∷ xs) h = elim (Bool-cases (by_key x a)) [
    | inl e ↦ rw e (below-insert_sorted (key x) a xs (ground arith) h)
    | inr e ↦ rw e (ground arith, below-weaken (key a) (key x) xs (ground arith) h)
  ]

  order_by-IsLeast : (xs : List A) → IsLeast (order_by by_key xs)
  unfolding order_by
  order_by-IsLeast [] = tt
  order_by-IsLeast (x ∷ xs) = insert_sorted-IsLeast x (order_by by_key xs) (order_by-IsLeast xs)

  IsLeast-head :
      (h : A) (xs : List A) → IsLeast xs → head_of xs ≡ some h → All (λ r. key h ≤ key r) xs
  IsLeast-head h [] l e = tt
  IsLeast-head h (x ∷ xs) l e =
      subst (λ y. All (λ r. key y ≤ key r) (x ∷ xs)) (some-injective x h e) (omega arith, l)

  -- No row of the table has a smaller key than the row that is found.
  pub head-order_by-le :
      (h : A) (xs : List A) → head_of (order_by by_key xs) ≡ some h → All (λ r. key h ≤ key r) xs
  head-order_by-le h xs e =
      below-order_by (key h) xs (IsLeast-head h (order_by by_key xs) (order_by-IsLeast xs) e)
