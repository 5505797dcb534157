-- ===== src/Plan/Shipped.antt =====
-- What shipping takes off the plan: the loop over the rows that were read changes each of them
-- once, and no other row.
use shipping_core.Base.{
  ℕ, ◌≡◌, refl, sym, ◌≢◌, ◌∙◌, ap, ap₂, Bool, true, false, ◌&&◌, List, [], ◌∷◌, map, ◌==◌,
  if◌then◌else◌, filter, contains, All, Bool-cases, arith, inl, inr, ◌⊎◌, subst,
}
use mathlib.Core.List.{Memᴰ}
use shipping_core.Base.Int.{ℤ, pos, ◌-ℤ◌, ◌+ℤ◌, leb_ℤ, ◌≤ℤ◌, ◌<ℤ◌}
use shipping_core.Base.Table.{update_where}
use shipping_core.Plan.Rows.{pending, shipped, is_pending, ShipPlanLine, PlanTable}
use shipping_core.Plan.Progress.{
  Totals, total_of, keys, addresses, set_shipped, set_qty, progress_row, progress_loop,
  is_listed_pending, apply_ship_plan_progress,
}

-- What becomes of one row when `n` of it have been shipped.
abbrev pub shipped_by : ℤ → ShipPlanLine → ShipPlanLine
shipped_by n r =
    if leb_ℤ n (pos 0)
    then r
    else if leb_ℤ r.qty n
    then record r { status = shipped }
    else record r { qty = r.qty -ℤ n }

-- What becomes of a row when the totals `m` have been shipped by the tenant.
abbrev pub after_shipping : ℕ → Totals → ShipPlanLine → ShipPlanLine
after_shipping tenant m r =
    if r.tenant_id == tenant && is_pending r.status then shipped_by (total_of r.id m) r else r

abbrev pub Fresh : ℕ → List ShipPlanLine → Type 0
Fresh id = All (λ r. r.id ≢ id)

-- No two rows have the same primary key.
abbrev pub UniqueIds : List ShipPlanLine → Type 0
UniqueIds [] = Unit
UniqueIds (r ∷ rs) = Fresh r.id rs × UniqueIds rs

module _ (tenant : ℕ) (m : Totals) where
  update-skip :
      (row : ShipPlanLine) (f : ShipPlanLine → ShipPlanLine) (rows : List ShipPlanLine)
      → Fresh row.id rows
      → update_where (addresses tenant row) f rows ≡ rows
  update-skip row f [] h = refl
  update-skip row f (r ∷ rs) (ne, h) = ground (arith, update-skip row f rs h)

  progress_row-skip :
      (row : ShipPlanLine) (rows : List ShipPlanLine)
      → Fresh row.id rows
      → progress_row tenant m row rows ≡ rows
  unfolding progress_row
  progress_row-skip row rows h = ground (
    arith,
    update-skip row set_shipped rows h,
    update-skip row (set_qty (row.qty -ℤ total_of row.id m)) rows h,
  )

  progress_row-cons :
      (row r : ShipPlanLine) (rows : List ShipPlanLine)
      → r.id ≢ row.id
      → progress_row tenant m row (r ∷ rows) ≡ r ∷ progress_row tenant m row rows
  unfolding progress_row
  progress_row-cons row r rows ne = ground arith

  progress_row-head :
      (row : ShipPlanLine) (rows : List ShipPlanLine)
      → row.tenant_id ≡ tenant
      → Fresh row.id rows
      → progress_row tenant m row (row ∷ rows) ≡ shipped_by (total_of row.id m) row ∷ rows
  unfolding progress_row
  progress_row-head row rows same h = ground (
    arith,
    update-skip row set_shipped rows h,
    update-skip row (set_qty (row.qty -ℤ total_of row.id m)) rows h,
  )

  progress_loop-cons :
      (fetched : List ShipPlanLine) (r : ShipPlanLine) (rows : List ShipPlanLine)
      → Fresh r.id fetched
      → progress_loop tenant m fetched (r ∷ rows) ≡ r ∷ progress_loop tenant m fetched rows
  unfolding progress_loop
  progress_loop-cons [] r rows h = refl
  progress_loop-cons (f ∷ fs) r rows (ne, h) =
      rw (progress_row-cons f r rows (λ e. ne (sym e)))
        (progress_loop-cons fs r (progress_row tenant m f rows) h)

  Fresh-filter :
      (p : ShipPlanLine → Bool) (id : ℕ) (rows : List ShipPlanLine)
      → Fresh id rows
      → Fresh id (filter p rows)
  Fresh-filter p id [] h = tt
  Fresh-filter p id (r ∷ rs) (ne, h) = ground (arith, Fresh-filter p id rs h)

  not_listed-total : (k : ℕ) (l : Totals) → contains k (keys l) ≡ false → total_of k l ≡ pos 0
  unfolding total_of keys
  not_listed-total k [] h = refl
  not_listed-total k ((j, n) ∷ l) h = ground (arith, not_listed-total k l)

  after_shipping-unlisted :
      (r : ShipPlanLine)
      → is_listed_pending tenant (keys m) r ≡ false
      → after_shipping tenant m r ≡ r
  after_shipping-unlisted r h = ground (arith, not_listed-total r.id m)

  after_shipping-listed :
      (r : ShipPlanLine)
      → is_listed_pending tenant (keys m) r ≡ true
      → after_shipping tenant m r ≡ shipped_by (total_of r.id m) r
  after_shipping-listed r h = ground arith

  listed-tenant :
      (r : ShipPlanLine) → is_listed_pending tenant (keys m) r ≡ true → r.tenant_id ≡ tenant
  listed-tenant r h = ground arith

  shipped_by-id : (n : ℤ) (r : ShipPlanLine) → (shipped_by n r).id ≡ r.id
  shipped_by-id n r = ground arith

  progress_loop-listed :
      (fs rows : List ShipPlanLine) (r : ShipPlanLine)
      → r.tenant_id ≡ tenant
      → Fresh r.id fs
      → Fresh r.id rows
      → progress_loop tenant m (r ∷ fs) (r ∷ rows)
        ≡ shipped_by (total_of r.id m) r ∷ progress_loop tenant m fs rows
  unfolding progress_loop
  progress_loop-listed fs rows r same fresh fresh' =
      let n = total_of r.id m in
      ap (progress_loop tenant m fs) (progress_row-head r rows same fresh')
      ∙ progress_loop-cons fs (shipped_by n r) rows
          (subst (λ id. Fresh id fs) (sym (shipped_by-id n r)) fresh)

  progress_loop-map :
      (rows : List ShipPlanLine)
      → UniqueIds rows
      → progress_loop tenant m (filter (is_listed_pending tenant (keys m)) rows) rows
        ≡ map (after_shipping tenant m) rows
  progress_loop-map [] h = unfold progress_loop in refl
  progress_loop-map (r ∷ rs) (fresh, h) =
      let chosen = is_listed_pending tenant (keys m) in
      let fs = filter chosen rs in
      let fresh' = Fresh-filter chosen r.id rs fresh in
      elim (Bool-cases (chosen r)) [
        | inl e ↦ rw e (
            progress_loop-listed fs rs r (listed-tenant r e) fresh' fresh
            ∙ ap₂ ◌∷◌ (sym (after_shipping-listed r e)) (progress_loop-map rs h))
        | inr e ↦ rw e (
            progress_loop-cons fs r rs fresh'
            ∙ ap₂ ◌∷◌ (sym (after_shipping-unlisted r e)) (progress_loop-map rs h))
      ]

-- Taking the shipped totals off the plan changes every row on its own: a pending row of the tenant
-- with a positive total becomes shipped if its quantity is used up and otherwise keeps the rest of
-- it, and every other row stays as it was. The primary keys are taken to be unique.
pub apply_ship_plan_progress-map :
    (tenant : ℕ) (m : Totals) (t : PlanTable)
    → UniqueIds t.rows
    → apply_ship_plan_progress tenant m t ≡ record t { rows = map (after_shipping tenant m) t.rows }
unfolding apply_ship_plan_progress
apply_ship_plan_progress-map tenant m t h =
    ap (λ (rows : List ShipPlanLine). record t { rows = rows })
      (progress_loop-map tenant m t.rows h)

-- The quantity that is still to be shipped.
abbrev pub outstanding : ShipPlanLine → ℤ
outstanding r = if is_pending r.status then r.qty else pos 0

-- A pending row of the tenant with a positive quantity loses exactly what was shipped of it, and at
-- most all of it; if something is left, it is positive and the row stays pending.
pub after_shipping-outstanding :
    (tenant : ℕ) (m : Totals) (r : ShipPlanLine)
    → r.tenant_id ≡ tenant
    → r.status ≡ pending
    → pos 1 ≤ℤ r.qty
    → pos 0 ≤ℤ total_of r.id m
    → let n = total_of r.id m in
      let r' = after_shipping tenant m r in
      ((r.qty ≤ℤ n) × (outstanding r' ≡ pos 0))
      ⊎ ((n <ℤ r.qty)
          × (outstanding r' +ℤ n ≡ r.qty)
          × (r'.status ≡ pending)
          × (pos 1 ≤ℤ outstanding r'))
unfolding ◌-ℤ◌ ◌+ℤ◌
after_shipping-outstanding tenant m r same p q n = ground arith

after_shipping-id :
    (tenant : ℕ) (m : Totals) (r : ShipPlanLine) → (after_shipping tenant m r).id ≡ r.id
after_shipping-id tenant m r = ground arith

Memᴰ-mapped :
    (f : ShipPlanLine → ShipPlanLine) (rows : List ShipPlanLine) (r : ShipPlanLine)
    → Memᴰ r rows
    → Memᴰ (f r) (map f rows)
Memᴰ-mapped f [] r m = elim m [ ]
Memᴰ-mapped f (x ∷ rows) r (Memᴰ.head e) = Memᴰ.head (ap f e)
Memᴰ-mapped f (x ∷ rows) r (Memᴰ.tail m) = Memᴰ.tail (Memᴰ-mapped f rows r m)

-- Of a pending row of the tenant with a positive quantity, `apply_ship_plan_progress` takes exactly
-- what was shipped of it and at most all of it: either all of it has been shipped and nothing is
-- outstanding under its id, or the rest, which is positive, stays pending. The primary keys are
-- taken to be unique and the total not to be negative.
pub apply_ship_plan_progress-outstanding :
    (tenant : ℕ) (m : Totals) (t : PlanTable) (r : ShipPlanLine)
    → UniqueIds t.rows
    → Memᴰ r t.rows
    → r.tenant_id ≡ tenant
    → r.status ≡ pending
    → pos 1 ≤ℤ r.qty
    → pos 0 ≤ℤ total_of r.id m
    → let n = total_of r.id m in
      (r' : ShipPlanLine) × Memᴰ r' (apply_ship_plan_progress tenant m t).rows
      × (r'.id ≡ r.id)
      × (((r.qty ≤ℤ n) × (outstanding r' ≡ pos 0))
          ⊎ ((n <ℤ r.qty)
              × (outstanding r' +ℤ n ≡ r.qty)
              × (r'.status ≡ pending)
              × (pos 1 ≤ℤ outstanding r')))
apply_ship_plan_progress-outstanding tenant m t r u listed own waits q n = (
  after_shipping tenant m r,
  rw (apply_ship_plan_progress-map tenant m t u)
      (Memᴰ-mapped (after_shipping tenant m) t.rows r listed),
  after_shipping-id tenant m r,
  after_shipping-outstanding tenant m r own waits q n,
)
