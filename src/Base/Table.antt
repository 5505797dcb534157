-- ===== src/Base/Table.antt =====
-- A database table as the list of its rows in the order of insertion, with the statements that
-- the services issue through gorm.
use shipping_core.Base.Tests.{if◌then◌else◌, Bool-cases}
use shipping_core.Base.Lists.{filter, All}
use mathlib.Core.Bool.{Bool, true, false, not}
use mathlib.Core.Option.{Option, none, some}
use mathlib.Core.List.{Memᴰ, List, [], ◌∷◌, ◌++◌}
use mathlib.Core.List.Memᴰ
use mathlib.Core.Path.{◌≡◌, refl, sym, ap, ◌∙◌}
use Prim.Native.Nat.{ℕ}
use mathlib.Core.Logic.{◌≢◌, ◌⊎◌, inl, inr}
use native.Mathlib.Omega.{arith}

module _ {ℓ} {R : Type ℓ} where
  -- `Where(p).First(&row)`
  abbrev pub first : (R → Bool) → List R → Option R
  first p [] = none
  first p (r ∷ rs) = let rest = first p rs in if p r then some r else rest

  -- `Where(p).Updates(f)`
  abbrev pub update_where : (R → Bool) → (R → R) → List R → List R
  update_where p f [] = []
  update_where p f (r ∷ rs) = (if p r then f r else r) ∷ update_where p f rs

  -- `Where(p).Delete`
  abbrev pub delete_where : (R → Bool) → List R → List R
  delete_where p rs = filter (λ r. not (p r)) rs

  pub first-holds : (p : R → Bool) (rs : List R) (r : R) → first p rs ≡ some r → p r ≡ true
  first-holds p [] r h = cc
  first-holds p (x ∷ rs) r h = elim (Bool-cases (p x)) [
    | inl e ↦ ground (arith)
    | inr e ↦ first-holds p rs r (ground arith)
  ]

  -- What every row has, the row that is found has.
  pub first-All :
      (p : R → Bool) (P : R → Type 0) (rs : List R) (r : R) → All P rs → first p rs ≡ some r → P r
  first-All p P [] r h e = cc
  first-All p P (x ∷ rs) r (hx, h) e = elim (Bool-cases (p x)) [
    | inl px ↦ ground arith
    | inr px ↦ first-All p P rs r h (ground arith)
  ]

  pub first-Memᴰ : (p : R → Bool) (rs : List R) (r : R) → first p rs ≡ some r → Memᴰ r rs
  first-Memᴰ p [] r h = cc
  first-Memᴰ p (x ∷ rs) r h = elim (Bool-cases (p x)) [
    | inl e ↦ Memᴰ.head cc
    | inr e ↦ Memᴰ.tail (first-Memᴰ p rs r (ground arith))
  ]

  Memᴰ-if :
      (p : R → Bool) (x r : R) (rest : List R)
      → Memᴰ r (if p x then x ∷ rest else rest)
      → ((r ≡ x) × (p x ≡ true)) ⊎ Memᴰ r rest
  Memᴰ-if p x r rest m = elim (Bool-cases (p x)) [
    | inl e ↦ elim (Memᴰ.cases_cons (rw e at m)) [ inl same ↦ inl (same, e) | inr k ↦ inr k ]
    | inr e ↦ inr (rw e at m)
  ]

  pub Memᴰ-filter :
      (p : R → Bool) (rs : List R) (r : R) → Memᴰ r (filter p rs) → Memᴰ r rs × (p r ≡ true)
  Memᴰ-filter p [] r m = absurd (Memᴰ.not-nil m)
  Memᴰ-filter p (x ∷ rs) r m = elim (Memᴰ-if p x r (filter p rs) m) [
    | inl (same, e) ↦ (Memᴰ.head same, rw same e)
    | inr k ↦ let (a, b) = Memᴰ-filter p rs r k in (Memᴰ.tail a, b)
  ]

  -- A row that a statement does not select stays in the table.
  pub Memᴰ-update_where :
      (p : R → Bool) (f : R → R) (rs : List R) (r : R)
      → Memᴰ r rs
      → p r ≡ false
      → Memᴰ r (update_where p f rs)
  Memᴰ-update_where p f [] r m h = elim m [ ]
  Memᴰ-update_where p f (x ∷ rs) r (Memᴰ.head e) h = Memᴰ.head (rw (← e) (rw h))
  Memᴰ-update_where p f (x ∷ rs) r (Memᴰ.tail m) h = Memᴰ.tail (Memᴰ-update_where p f rs r m h)

  -- A row that it selects is replaced.
  pub Memᴰ-update_where_self :
      (p : R → Bool) (f : R → R) (rs : List R) (r : R)
      → Memᴰ r rs
      → p r ≡ true
      → Memᴰ (f r) (update_where p f rs)
  Memᴰ-update_where_self p f [] r m h = elim m [ ]
  Memᴰ-update_where_self p f (x ∷ rs) r (Memᴰ.head e) h = Memᴰ.head (rw (← e) (rw h refl))
  Memᴰ-update_where_self p f (x ∷ rs) r (Memᴰ.tail m) h =
      Memᴰ.tail (Memᴰ-update_where_self p f rs r m h)

-- Keys that are unique in a table.
module _ {ℓ} {R : Type ℓ} (key : R → ℕ) where
  abbrev pub FreshKey : ℕ → List R → Type 0
  FreshKey k [] = Unit
  FreshKey k (r ∷ rs) = (key r ≢ k) × FreshKey k rs

  abbrev pub UniqueKeys : List R → Type 0
  UniqueKeys [] = Unit
  UniqueKeys (r ∷ rs) = FreshKey (key r) rs × UniqueKeys rs

  FreshKey-Memᴰ : (k : ℕ) (rs : List R) (r : R) → FreshKey k rs → Memᴰ r rs → key r ≢ k
  FreshKey-Memᴰ k [] r h m = elim m [ ]
  FreshKey-Memᴰ k (x ∷ rs) r (ne, h) (Memᴰ.head e) = rw e ne
  FreshKey-Memᴰ k (x ∷ rs) r (ne, h) (Memᴰ.tail m) = FreshKey-Memᴰ k rs r h m

  -- Two rows with the same key are the same row.
  pub Memᴰ-unique :
      (rs : List R) (r s : R) → UniqueKeys rs → Memᴰ r rs → Memᴰ s rs → key r ≡ key s → r ≡ s
  Memᴰ-unique [] r s u m m' k = elim m [ ]
  Memᴰ-unique (x ∷ rs) r s (f, u) (Memᴰ.head e) (Memᴰ.head e') k = e ∙ sym e'
  Memᴰ-unique (x ∷ rs) r s (f, u) (Memᴰ.head e) (Memᴰ.tail m) k =
      absurd (FreshKey-Memᴰ (key x) rs s f m (sym k ∙ ap key e))
  Memᴰ-unique (x ∷ rs) r s (f, u) (Memᴰ.tail m) (Memᴰ.head e) k =
      absurd (FreshKey-Memᴰ (key x) rs r f m (k ∙ ap key e))
  Memᴰ-unique (x ∷ rs) r s (f, u) (Memᴰ.tail m) (Memᴰ.tail m') k = Memᴰ-unique rs r s u m m' k

-- What every row has, and the statements keep.
module _ {ℓ} {R : Type ℓ} (P : R → Type 0) where
  pub All-delete_where : (p : R → Bool) (rs : List R) → All P rs → All P (delete_where p rs)
  All-delete_where p [] h = tt
  All-delete_where p (r ∷ rs) (h, hs) = elim (Bool-cases (p r)) [
    | inl e ↦ rw e (All-delete_where p rs hs)
    | inr e ↦ rw e (h, All-delete_where p rs hs)
  ]

  pub All-update_where :
      (p : R → Bool) (f : R → R) (rs : List R)
      → ((r : R) → P r → P (f r))
      → All P rs
      → All P (update_where p f rs)
  All-update_where p f [] k h = tt
  All-update_where p f (r ∷ rs) k (h, hs) = elim (Bool-cases (p r)) [
    | inl e ↦ rw e (k r h, All-update_where p f rs k hs)
    | inr e ↦ rw e (h, All-update_where p f rs k hs)
  ]

-- Where a row of a changed table comes from.
module _ {ℓ} {R : Type ℓ} where
  -- A row that a deletion does not select stays in the table.
  pub Memᴰ-delete_where :
      (p : R → Bool) (rs : List R) (r : R) → Memᴰ r rs → p r ≡ false → Memᴰ r (delete_where p rs)
  Memᴰ-delete_where p [] r m h = elim m [ ]
  Memᴰ-delete_where p (x ∷ rs) r (Memᴰ.head e) h = rw (← e) (rw h (Memᴰ.head refl))
  Memᴰ-delete_where p (x ∷ rs) r (Memᴰ.tail m) h = elim (Bool-cases (p x)) [
    | inl d ↦ rw d (Memᴰ-delete_where p rs r m h)
    | inr d ↦ rw d (Memᴰ.tail (Memᴰ-delete_where p rs r m h))
  ]

  pub Memᴰ-of-update_where :
      (p : R → Bool) (f : R → R) (rs : List R) (y : R)
      → Memᴰ y (update_where p f rs)
      → (Memᴰ y rs × (p y ≡ false)) ⊎ ((r : R) × Memᴰ r rs × (p r ≡ true) × (y ≡ f r))
  Memᴰ-of-update_where p f [] y m = elim m [ ]
  Memᴰ-of-update_where p f (x ∷ rs) y (Memᴰ.head e) = elim (Bool-cases (p x)) [
    | inl d ↦ inr (x, Memᴰ.head refl, d, rw d at e)
    | inr d ↦ let same : y ≡ x = rw d at e in inl (Memᴰ.head same, rw same d)
  ]
  Memᴰ-of-update_where p f (x ∷ rs) y (Memᴰ.tail m) = elim (Memᴰ-of-update_where p f rs y m) [
    | inl (k, e) ↦ inl (Memᴰ.tail k, e)
    | inr (r, k, d, e) ↦ inr (r, Memᴰ.tail k, d, e)
  ]

  -- A search that finds nothing rules every row out.
  pub first-none :
      (p : R → Bool) (rs : List R) (r : R) → first p rs ≡ none → Memᴰ r rs → p r ≡ false
  first-none p [] r h m = elim m [ ]
  first-none p (x ∷ rs) r h (Memᴰ.head e) = elim (Bool-cases (p x)) [
    | inl d ↦ let no : some x ≡ none = rw d at h in cc
    | inr d ↦ rw e d
  ]
  first-none p (x ∷ rs) r h (Memᴰ.tail m) = elim (Bool-cases (p x)) [
    | inl d ↦ let no : some x ≡ none = rw d at h in cc
    | inr d ↦ first-none p rs r (rw d at h) m
  ]

  pub Memᴰ-of-append : (rs : List R) (x y : R) → Memᴰ y (rs ++ x ∷ []) → Memᴰ y rs ⊎ (y ≡ x)
  Memᴰ-of-append [] x y (Memᴰ.head e) = inr e
  Memᴰ-of-append [] x y (Memᴰ.tail m) = elim m [ ]
  Memᴰ-of-append (r ∷ rs) x y (Memᴰ.head e) = inl (Memᴰ.head e)
  Memᴰ-of-append (r ∷ rs) x y (Memᴰ.tail m) = elim (Memᴰ-of-append rs x y m) [
    | inl k ↦ inl (Memᴰ.tail k)
    | inr e ↦ inr e
  ]
