-- ===== src/Shipper/Keys.antt =====
-- The primary keys of the profiles: unique, and below the table's sequence.
use shipping_core.Base.{
  ℕ, ◌+◌, ◌<◌, ◌≡◌, ◌≢◌, sym, ◌∙◌, subst, Bool, true, List, [], ◌∷◌, ◌++◌, if◌then◌else◌, All,
  Bool-cases, arith, inl, inr,
}
use shipping_core.Base.Table.{update_where, delete_where, FreshKey, UniqueKeys}
use shipping_core.Shipper.Profiles.{ShipperProfile}
use shipping_core.Shipper.Defaults.{key}

abbrev pub IsNumbered : ℕ → List ShipperProfile → Type 0
IsNumbered next rows = All (λ r. (0 < r.id) × (r.id < next)) rows

-- A statement that keeps the key of every row that it selects.
module _ (p : ShipperProfile → Bool) (f : ShipperProfile → ShipperProfile)
    (keeps : (r : ShipperProfile) → p r ≡ true → (f r).id ≡ r.id) where
  changed-id : (r : ShipperProfile) → (if p r then f r else r).id ≡ r.id
  changed-id r = elim (Bool-cases (p r)) [ inl e ↦ rw e (keeps r e) | inr e ↦ rw e ]

  FreshKey-update :
      (k : ℕ) (rows : List ShipperProfile)
      → FreshKey key k rows
      → FreshKey key k (update_where p f rows)
  FreshKey-update k [] h = tt
  FreshKey-update k (r ∷ rs) (ne, h) = (λ e. ne (sym (changed-id r) ∙ e), FreshKey-update k rs h)

  pub UniqueKeys-update :
      (rows : List ShipperProfile) → UniqueKeys key rows → UniqueKeys key (update_where p f rows)
  UniqueKeys-update [] u = tt
  UniqueKeys-update (r ∷ rs) (fresh, u) = (
    subst (λ k. FreshKey key k (update_where p f rs)) (sym (changed-id r))
        (FreshKey-update r.id rs fresh),
    UniqueKeys-update rs u,
  )

  pub IsNumbered-update :
      (next : ℕ) (rows : List ShipperProfile)
      → IsNumbered next rows
      → IsNumbered next (update_where p f rows)
  IsNumbered-update next [] h = tt
  IsNumbered-update next (r ∷ rs) (h, hs) =
      (subst (λ (k : ℕ). (0 < k) × (k < next)) (sym (changed-id r)) h, IsNumbered-update next rs hs)

FreshKey-append :
    (k : ℕ) (rows : List ShipperProfile) (item : ShipperProfile)
    → FreshKey key k rows
    → item.id ≢ k
    → FreshKey key k (rows ++ item ∷ [])
FreshKey-append k [] item h ne = (ne, tt)
FreshKey-append k (r ∷ rs) item (ne', h) ne = (ne', FreshKey-append k rs item h ne)

-- A row with the next number has a key of its own.
pub UniqueKeys-append :
    (next : ℕ) (rows : List ShipperProfile) (item : ShipperProfile)
    → UniqueKeys key rows
    → IsNumbered next rows
    → item.id ≡ next
    → UniqueKeys key (rows ++ item ∷ [])
UniqueKeys-append next [] item u h e = (tt, tt)
UniqueKeys-append next (r ∷ rs) item (fresh, u) (h, hs) e =
    (FreshKey-append r.id rs item fresh (ground arith), UniqueKeys-append next rs item u hs e)

pub IsNumbered-append :
    (next : ℕ) (rows : List ShipperProfile) (item : ShipperProfile)
    → IsNumbered next rows
    → item.id ≡ next
    → 0 < next
    → IsNumbered (next + 1) (rows ++ item ∷ [])
IsNumbered-append next [] item h e pos = ((ground arith, ground arith), tt)
IsNumbered-append next (r ∷ rs) item (h, hs) e pos =
    ((h.0, ground arith), IsNumbered-append next rs item hs e pos)

FreshKey-delete :
    (p : ShipperProfile → Bool) (k : ℕ) (rows : List ShipperProfile)
    → FreshKey key k rows
    → FreshKey key k (delete_where p rows)
FreshKey-delete p k [] h = tt
FreshKey-delete p k (r ∷ rs) (ne, h) = elim (Bool-cases (p r)) [
  | inl e ↦ rw e (FreshKey-delete p k rs h)
  | inr e ↦ rw e (ne, FreshKey-delete p k rs h)
]

pub UniqueKeys-delete :
    (p : ShipperProfile → Bool) (rows : List ShipperProfile)
    → UniqueKeys key rows
    → UniqueKeys key (delete_where p rows)
UniqueKeys-delete p [] u = tt
UniqueKeys-delete p (r ∷ rs) (fresh, u) = elim (Bool-cases (p r)) [
  | inl e ↦ rw e (UniqueKeys-delete p rs u)
  | inr e ↦ rw e (FreshKey-delete p r.id rs fresh, UniqueKeys-delete p rs u)
]

pub IsNumbered-delete :
    (p : ShipperProfile → Bool) (next : ℕ) (rows : List ShipperProfile)
    → IsNumbered next rows
    → IsNumbered next (delete_where p rows)
IsNumbered-delete p next [] h = tt
IsNumbered-delete p next (r ∷ rs) (h, hs) = elim (Bool-cases (p r)) [
  | inl e ↦ rw e (IsNumbered-delete p next rs hs)
  | inr e ↦ rw e (h, IsNumbered-delete p next rs hs)
]
