-- ===== src/Plan/Tests.antt =====
-- Runs of the plan's operations, and the plan's theorems at concrete plans.
use shipping_core.Base.{ℕ, ◌≡◌, refl, ◌↔◌, ◌⊎◌, some, List, [], ◌∷◌, map, All, arith, inr}
use mathlib.Core.List.{Memᴰ}
use shipping_core.Base.Int.{ℤ, wrap64, pos, ◌≤ℤ◌, ◌<ℤ◌, ◌+ℤ◌}
use shipping_core.Base.Text.{trim_space}
use shipping_core.Errors.{ok, err, bad_request}
use shipping_core.Plan.Rows.{pending, ShipPlanLine, PlanTable}
use shipping_core.Plan.Save.{
  ShipPlanLineInput, SyncSplitItems, prepared_line, prepare_line, prepare_from, has_bound, has_free,
  check_plan, put_ship_plan,
}
use shipping_core.Plan.Progress.{
  Totals, total_of, totals_of_goods, add_total, apply_ship_plan_progress,
}
use shipping_core.Plan.Validation.{IsAcceptable, IsUniform, check_plan_iff}
use shipping_core.Plan.Replacement.{Saved, own, other, rows_where, put_ship_plan_replaces}
use shipping_core.Plan.Shipped.{
  UniqueIds, after_shipping, outstanding, apply_ship_plan_progress-map,
  apply_ship_plan_progress-outstanding,
}

abbrev row : ℕ → ℕ → ℤ → ShipPlanLine
row id order_core_id qty = record {
  id = id;
  tenant_id = 1;
  order_core_id = order_core_id;
  order_item_id = 0;
  split_order_item_id = 0;
  sku_name = "sku";
  qty = qty;
  sort_no = pos 1;
  status = pending;
}

abbrev table : PlanTable
table = record { rows = row 4 10 (pos 5) ∷ row 5 10 (pos 2) ∷ row 6 20 (pos 1) ∷ []; next_id = 7 }

abbrev red : ShipPlanLineInput
red = record { order_item_id = 0; sku_name = " red "; qty = pos 3; sort_no = pos 0 }

abbrev blue : ShipPlanLineInput
blue = record { order_item_id = 0; sku_name = "blue"; qty = pos 1; sort_no = pos 9 }

abbrev nameless : ShipPlanLineInput
nameless = record { order_item_id = 0; sku_name = " "; qty = pos 3; sort_no = pos 0 }

abbrev request : List ShipPlanLineInput
request = red ∷ blue ∷ []

abbrev prepared : List ShipPlanLine
prepared = prepared_line 1 10 0 red ∷ prepared_line 1 10 1 blue ∷ []

-- The order centre's client that always refuses.
abbrev refusing : SyncSplitItems
refusing token order_core_id mode lines = err bad_request

accepted : check_plan 1 10 request ≡ ok prepared
unfolding check_plan prepare_from prepare_line has_bound has_free trim_space
accepted = refl

abbrev totals : Totals
totals = (4, pos 3) ∷ (5, pos 2) ∷ []

-- Goods of the same line are added up, and a quantity that is not positive counts as 1.
goods_test :
    totals_of_goods [] (
      record { plan_line_id = 4; num = pos 2 }
      ∷ record { plan_line_id = 0; num = pos 8 }
      ∷ record { plan_line_id = 4; num = pos 0 }
      ∷ [])
    ≡ (4, pos 3) ∷ []
unfolding totals_of_goods add_total wrap64 ◌+ℤ◌
goods_test = refl

check_plan_iff_example :
    ((rs : List ShipPlanLine) × (check_plan 1 10 request ≡ ok rs))
    ↔ (All IsAcceptable request × IsUniform request)
check_plan_iff_example = check_plan_iff 1 10 request

request_good : All IsAcceptable request
unfolding trim_space
request_good = ((refl, omega arith), ((refl, omega arith), tt))

request-IsUniform : IsUniform request
request-IsUniform = inr (refl, (refl, tt))

put_ship_plan_replaces_example :
    let t' = (put_ship_plan (some refusing) 1 "token" 10 request table).1 in
    Saved 1 10 7 0 request (rows_where (own 1 10) t'.rows)
    × (rows_where (other 1 10) t'.rows ≡ rows_where (other 1 10) table.rows)
put_ship_plan_replaces_example =
    put_ship_plan_replaces (some refusing) 1 "token" 10 request table (ground arith) request_good
      request-IsUniform

unique : UniqueIds table.rows
unique = ((ground arith, (ground arith, tt)), ((ground arith, tt), (tt, tt)))

apply_ship_plan_progress-map_example :
    apply_ship_plan_progress 1 totals table
    ≡ record table { rows = map (after_shipping 1 totals) table.rows }
apply_ship_plan_progress-map_example = apply_ship_plan_progress-map 1 totals table unique

total_positive : pos 0 ≤ℤ total_of 4 totals
unfolding total_of
total_positive = ground arith

apply_ship_plan_progress-outstanding_example :
    let n = total_of 4 totals in
    (r : ShipPlanLine) × Memᴰ r (apply_ship_plan_progress 1 totals table).rows
    × (r.id ≡ 4)
    × (((pos 5 ≤ℤ n) × (outstanding r ≡ pos 0))
        ⊎ ((n <ℤ pos 5)
            × (outstanding r +ℤ n ≡ pos 5)
            × (r.status ≡ pending)
            × (pos 1 ≤ℤ outstanding r)))
apply_ship_plan_progress-outstanding_example =
    apply_ship_plan_progress-outstanding 1 totals table (row 4 10 (pos 5)) unique (Memᴰ.head refl)
      refl refl (ground arith) total_positive
