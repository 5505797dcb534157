-- ===== src/Shipment/Confirm.antt =====
-- `ConfirmKdzsShip`: an order that the helper has printed is reported to the order centre, and gets
-- its shipment unless it has one with that parcel number; the plan is brought up to date.
use shipping_core.Base.{
  ℕ, ◌+◌, String, Bool, false, not, ◌&&◌, ◌||◌, Option, none, some, List, [], ◌∷◌, ◌++◌, map, ◌==◌,
  if◌then◌else◌,
}
use shipping_core.Base.Text.{
  is_empty, trim_space, str_eq, str_contains, first_non_empty_trim, ◌+++◌,
}
use shipping_core.Base.Table.{first, update_where}
use shipping_core.Errors.{Err, order_core, Result, ok, err, bad_request}
use shipping_core.Plan.Rows.{PlanTable}
use shipping_core.Plan.Progress.{apply_progress_from_goods}
use shipping_core.Shipment.Model.{Shipment, is_cancelled}
use shipping_core.Shipment.World.{Outside, World, is_row, get_shipment, ship_order_core}
use shipping_core.Shipment.Waybill.{reported_items}
use shipping_core.Shipment.Snapshot.{
  OrderSnapshotDto, express_company_or, goods_item, new_shipment, shipped_goods,
}

pub record ConfirmKdzsShipDto : Type 0 where
  pub order_id : ℕ
  pub express_no : String
  pub express_company : String
  pub order : OrderSnapshotDto
  pub group_id : Option ℕ
  pub reship : Bool

-- The order's shipments under a parcel number that are not cancelled.
abbrev pub is_active : ℕ → ℕ → String → Shipment → Bool
is_active tenant order_id no' r =
    r.tenant_id == tenant
    && r.order_core_order_id == order_id
    && str_eq r.mail_no no'
    && not (is_cancelled r.status)

unfoldable pub find_active_kdzs_shipment : ℕ → ℕ → String → List Shipment → Option Shipment
find_active_kdzs_shipment tenant order_id no' rows =
    if order_id == 0 || is_empty (trim_space no')
    then none
    else first (is_active tenant order_id (trim_space no')) rows

abbrev text_already_shipped : String → Bool
text_already_shipped text =
    str_contains text "超过剩余可发"
    || str_contains text "已全部发货"
    || str_contains text "无需重复发货"
    || str_contains text "已发货"

-- `isOrderAlreadyShippedErr`, on the errors that `ship_order_core` returns.
unfoldable pub is_order_already_shipped_err : Err → Bool
is_order_already_shipped_err (order_core text) = text_already_shipped text
is_order_already_shipped_err _ = false

-- The order has its shipment, but the order centre could not be told.
abbrev pub not_told : Err → Err
not_told (order_core text) = order_core ("发货单已存在，回写订单中心失败: " +++ text)
not_told e = e

-- The columns that are updated on a shipment that is there: the order centre's time, where it names
-- one, no time of printing, and the group, where one is given.
abbrev pub aligned : Option ℕ → Shipment → Shipment
aligned none s = record s { printed_at = none }
aligned (some t) s = record s { shipped_at = some t; printed_at = none }

abbrev pub grouped : Option ℕ → Shipment → Shipment
grouped none s = s
grouped (some g) s = record s { group_id = some g }

abbrev pub update_row : ℕ → ℕ → (Shipment → Shipment) → World → World
update_row tenant id f w = record w { shipments = update_where (is_row tenant id) f w.shipments }

abbrev pub add_shipment : Shipment → World → World
add_shipment s w = record w {
  shipments = w.shipments ++ s ∷ [];
  next_shipment = w.next_shipment + 1;
}

abbrev pub time_or : ℕ → Option ℕ → ℕ
time_or now none = now
time_or now (some t) = t

module _ (o : Outside) (tenant now : ℕ) where
  abbrev pub reuse_answered :
      ConfirmKdzsShipDto → Shipment → Result (Option ℕ) × World → Result Shipment × World
  reuse_answered inp s (err e, w) =
      if is_order_already_shipped_err e
      then (get_shipment o tenant s.id w, w)
      else (err (not_told e), w)
  reuse_answered inp s (ok t, w) =
      let w' = update_row tenant s.id (λ r. grouped inp.group_id (aligned t r)) w in
      (get_shipment o tenant s.id w', w')

  abbrev pub with_plans : PlanTable → Result Shipment × World → Result Shipment × World × PlanTable
  with_plans plans (r, w) = (r, w, plans)

  abbrev pub create_answered :
      ConfirmKdzsShipDto
      → PlanTable
      → Result (Option ℕ) × World
      → Result Shipment × World × PlanTable
  create_answered inp plans (err e, w) = (err e, w, plans)
  create_answered inp plans (ok t, w) =
      let s =
        new_shipment w.next_shipment tenant inp.order_id (trim_space inp.express_no)
          (express_company_or inp.express_company) inp.group_id inp.reship (time_or now t)
          inp.order in
      let w' = add_shipment s w in
      (
        get_shipment o tenant s.id w',
        w',
        apply_progress_from_goods tenant (map shipped_goods inp.order.goods) plans,
      )

  abbrev pub confirm_found :
      ConfirmKdzsShipDto → World → PlanTable → Option Shipment → Result Shipment × World × PlanTable
  confirm_found inp w plans (some s) =
      let company =
        first_non_empty_trim (express_company_or inp.express_company ∷ s.express_company ∷ []) in
      let told =
        ship_order_core o inp.order_id company (trim_space inp.express_no) (reported_items s) false
          w in
      if inp.reship
      then (err bad_request, w, plans)
      else with_plans plans (reuse_answered inp s told)
  confirm_found inp w plans none =
      let items = if inp.reship then [] else map goods_item inp.order.goods in
      create_answered inp plans (
        ship_order_core o inp.order_id (express_company_or inp.express_company)
          (trim_space inp.express_no) items false w)

  unfoldable pub confirm_kdzs_ship :
      ConfirmKdzsShipDto → World → PlanTable → Result Shipment × World × PlanTable
  confirm_kdzs_ship inp w plans =
      if inp.order_id == 0 || is_empty (trim_space inp.express_no)
      then (err bad_request, w, plans)
      else confirm_found inp w plans
          (find_active_kdzs_shipment tenant inp.order_id (trim_space inp.express_no) w.shipments)
