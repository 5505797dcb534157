-- ===== src/Plan/Rows.antt =====
-- The table of plan lines, and the queries on it.
use shipping_core.Base.{
  ℕ, String, Bool, true, false, ◌&&◌, ◌||◌, List, map, ltb, ◌==◌, if◌then◌else◌, filter,
}
use shipping_core.Base.Int.{ℤ, ltb_ℤ, leb_ℤ}
use shipping_core.Base.Text.{str_eq, is_empty, trim_space}
use shipping_core.Base.Order.{order_by}
use shipping_core.Errors.{Result, ok, err, bad_request}

pub data PlanStatus : Type 0 where
  pending shipped : PlanStatus

-- The text that the column holds.
abbrev pub status_text : PlanStatus → String
status_text pending = "pending"
status_text shipped = "shipped"

abbrev pub is_pending : PlanStatus → Bool
is_pending pending = true
is_pending shipped = false

pub record ShipPlanLine : Type 0 where
  pub id : ℕ
  pub tenant_id : ℕ
  pub order_core_id : ℕ
  pub order_item_id : ℕ
  pub split_order_item_id : ℕ
  pub sku_name : String
  pub qty : ℤ
  pub sort_no : ℤ
  pub status : PlanStatus

-- The table; `next_id` is the sequence of its primary key.
pub record PlanTable : Type 0 where
  pub rows : List ShipPlanLine
  pub next_id : ℕ

pub record ShipPlanLineDto : Type 0 where
  pub id : ℕ
  pub order_core_id : ℕ
  pub order_item_id : ℕ
  pub split_order_item_id : ℕ
  pub sku_name : String
  pub qty : ℤ
  pub sort_no : ℤ
  pub status : PlanStatus

abbrev pub to_ship_plan_line_dto : ShipPlanLine → ShipPlanLineDto
to_ship_plan_line_dto l = record {
  id = l.id;
  order_core_id = l.order_core_id;
  order_item_id = l.order_item_id;
  split_order_item_id = l.split_order_item_id;
  sku_name = l.sku_name;
  qty = l.qty;
  sort_no = l.sort_no;
  status = l.status;
}

-- `ORDER BY sort_no ASC, id ASC`: whether `a` stands before `b`.
abbrev pub plan_before : ShipPlanLine → ShipPlanLine → Bool
plan_before a b = ltb_ℤ a.sort_no b.sort_no || (leb_ℤ a.sort_no b.sort_no && ltb a.id b.id)

-- Whether the row passes the optional filter on the status.
abbrev pub status_passes : String → PlanStatus → Bool
status_passes filter_text s =
    let wanted = trim_space filter_text in is_empty wanted || str_eq (status_text s) wanted

unfoldable pub get_ship_plan : ℕ → ℕ → String → PlanTable → Result (List ShipPlanLineDto)
get_ship_plan tenant order_core_id filter_text t =
    if order_core_id == 0
    then err bad_request
    else ok (map to_ship_plan_line_dto (order_by plan_before (filter wanted t.rows)))
  where
    wanted : ShipPlanLine → Bool
    wanted r =
        r.tenant_id == tenant
        && r.order_core_id == order_core_id
        && status_passes filter_text r.status
