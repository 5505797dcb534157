-- ===== src/Plan/Progress.antt =====
-- What is shipped is taken off the pending lines: `MarkShipPlanLinesShipped`,
-- `ApplyShipPlanProgressFromGoods`, `ApplyShipPlanProgressFromSplitLines`, `applyShipPlanProgress`.
use shipping_core.Base.{
  ℕ, ◌+◌, Bool, ◌&&◌, ◌||◌, List, [], ◌∷◌, ◌==◌, if◌then◌else◌, filter, contains,
}
use shipping_core.Base.Int.{ℤ, pos, ◌+ℤ◌, ◌-ℤ◌, wrap64, leb_ℤ}
use shipping_core.Base.Table.{update_where}
use shipping_core.Plan.Rows.{shipped, is_pending, ShipPlanLine, PlanTable}

-- The plan line that a shipped item belongs to (0 for none) and its quantity, as they stand in
-- `OrderGoodsDTO` and in `SplitShipLineDTO`.
pub record Shipped : Type 0 where
  pub plan_line_id : ℕ
  pub num : ℤ

-- `map[uint64]int`
abbrev pub Totals : Type 0
Totals = List (ℕ × ℤ)

-- `m[k]`, which is 0 for a key that is not there.
unfoldable pub total_of : ℕ → Totals → ℤ
total_of k [] = pos 0
total_of k ((j, n) ∷ m) = if j == k then n else total_of k m

-- `m[k] += n`
unfoldable pub add_total : ℕ → ℤ → Totals → Totals
add_total k n [] = (k, n) ∷ []
add_total k n ((j, m) ∷ ms) =
    if j == k then (j, wrap64 (m +ℤ n)) ∷ ms else (j, m) ∷ add_total k n ms

abbrev goods_num : ℤ → ℤ
goods_num n = if leb_ℤ n (pos 0) then pos 1 else n

unfoldable pub totals_of_goods : Totals → List Shipped → Totals
totals_of_goods m [] = m
totals_of_goods m (g ∷ gs) =
    totals_of_goods
      (if g.plan_line_id == 0 then m else add_total g.plan_line_id (goods_num g.num) m) gs

unfoldable pub totals_of_split_lines : Totals → List Shipped → Totals
totals_of_split_lines m [] = m
totals_of_split_lines m (l ∷ ls) =
    totals_of_split_lines
      (if l.plan_line_id == 0 || leb_ℤ l.num (pos 0) then m else add_total l.plan_line_id l.num m)
      ls

unfoldable pub keys : Totals → List ℕ
keys [] = []
keys ((k, n) ∷ m) = k ∷ keys m

abbrev pub set_shipped : ShipPlanLine → ShipPlanLine
set_shipped r = record r { status = shipped }

abbrev pub set_qty : ℤ → ShipPlanLine → ShipPlanLine
set_qty n r = record r { qty = n }

-- The row that gorm's `Model(&row)` addresses, within the tenant.
abbrev pub addresses : ℕ → ShipPlanLine → ShipPlanLine → Bool
addresses tenant row r = r.tenant_id == tenant && r.id == row.id

-- One round of the loop over the rows that were read.
unfoldable pub progress_row : ℕ → Totals → ShipPlanLine → List ShipPlanLine → List ShipPlanLine
progress_row tenant m row rows =
    let n = total_of row.id m in
    if leb_ℤ n (pos 0)
    then rows
    else if leb_ℤ row.qty n
    then update_where (addresses tenant row) set_shipped rows
    else update_where (addresses tenant row) (set_qty (row.qty -ℤ n)) rows

unfoldable pub progress_loop :
    ℕ → Totals → List ShipPlanLine → List ShipPlanLine → List ShipPlanLine
progress_loop tenant m [] rows = rows
progress_loop tenant m (row ∷ more) rows =
    progress_loop tenant m more (progress_row tenant m row rows)

abbrev pub is_listed_pending : ℕ → List ℕ → ShipPlanLine → Bool
is_listed_pending tenant ids r = r.tenant_id == tenant && contains r.id ids && is_pending r.status

unfoldable pub apply_ship_plan_progress : ℕ → Totals → PlanTable → PlanTable
unfolding keys
apply_ship_plan_progress tenant m t = record t {
  rows = progress_loop tenant m (filter (is_listed_pending tenant (keys m)) t.rows) t.rows;
}

unfoldable pub apply_progress_from_goods : ℕ → List Shipped → PlanTable → PlanTable
apply_progress_from_goods tenant goods t =
    apply_ship_plan_progress tenant (totals_of_goods [] goods) t

unfoldable pub apply_progress_from_split_lines : ℕ → List Shipped → PlanTable → PlanTable
apply_progress_from_split_lines tenant lines t =
    apply_ship_plan_progress tenant (totals_of_split_lines [] lines) t

-- The ids without 0 and without repetitions.
unfoldable pub clean_ids : List ℕ → List ℕ → List ℕ
clean_ids seen [] = []
clean_ids seen (id ∷ ids) =
    let next = if id == 0 || contains id seen then seen else id ∷ seen in
    let rest = clean_ids next ids in if id == 0 || contains id seen then rest else id ∷ rest

unfoldable pub mark_ship_plan_lines_shipped : ℕ → List ℕ → PlanTable → PlanTable
mark_ship_plan_lines_shipped tenant ids t = record t {
  rows = update_where (is_listed_pending tenant (clean_ids [] ids)) set_shipped t.rows;
}

-- `CountPendingShipPlanByOrders`: the count of each order that has pending lines.
unfoldable pub count_one : ℕ → List (ℕ × ℕ) → List (ℕ × ℕ)
count_one k [] = (k, 1) ∷ []
count_one k ((j, n) ∷ m) = if j == k then (j, n + 1) ∷ m else (j, n) ∷ count_one k m

unfoldable pub count_from : ℕ → List ℕ → List ShipPlanLine → List (ℕ × ℕ)
count_from tenant order_ids [] = []
count_from tenant order_ids (r ∷ rs) =
    let rest = count_from tenant order_ids rs in
    if r.tenant_id == tenant && contains r.order_core_id order_ids && is_pending r.status
    then count_one r.order_core_id rest
    else rest

unfoldable pub count_pending_by_orders : ℕ → List ℕ → PlanTable → List (ℕ × ℕ)
unfolding count_from
count_pending_by_orders tenant order_ids t = count_from tenant order_ids t.rows
