-- ===== src/Shipment/Order.antt =====
-- `CreateFromOrder`: a draft is made of an order, a carrier account and a shipper profile, and its
-- goods are taken off the plan. `is_time` is whether `time.ParseInLocation` reads a text as a date
-- with a time. Weights, dimensions and the notes to the courier are left out.
use shipping_core.Base.{
  ℕ, zero, String, Bool, not, ◌&&◌, ◌||◌, Option, none, some, List, [], ◌∷◌, map, ◌==◌,
  if◌then◌else◌,
}
use shipping_core.Base.Int.{ℤ, pos, ◌+ℤ◌, wrap64, leb_ℤ}
use shipping_core.Base.Text.{
  is_empty, trim_space, str_eq, equal_fold, upper_has_prefix, first_non_empty_trim, ◌+++◌, decimal,
}
use shipping_core.Errors.{Result, ok, err, bad_request}
use shipping_core.Plan.Rows.{PlanTable}
use shipping_core.Plan.Progress.{apply_progress_from_goods}
use shipping_core.Shipper.Profiles.{ShipperProfile, ShipperTable, get_profile}
use shipping_core.Shipment.Model.{Shipment, ShipmentItem, CarrierAccount, draft}
use shipping_core.Shipment.Cargo.{at_least_one}
use shipping_core.Shipment.World.{Outside, World, get_shipment, get_carrier}
use shipping_core.Shipment.Waybill.{has_credentials}
use shipping_core.Shipment.Snapshot.{
  OrderGoodsDto, OrderSnapshotDto, goods_item, trimmed, shipped_goods,
}
use shipping_core.Shipment.Confirm.{add_shipment}

pub record CreateShipmentFromOrderDto : Type 0 where
  pub carrier_account_id : ℕ
  pub shipper_profile_id : ℕ
  pub use_monthly : Option Bool
  pub express_type : String
  pub pay_method : ℤ
  pub remark : String
  pub cargo_name : String
  pub parcel_qty : ℤ
  pub cargo_count : ℤ
  pub pickup_mode : String
  pub send_start_tm : String
  pub order_id : ℕ
  pub source_system : String
  pub group_id : Option ℕ
  pub reship : Bool
  pub order : OrderSnapshotDto

-- `useMonthly`
abbrev pub monthly_of : Option Bool → Bool → Bool
monthly_of none account = account
monthly_of (some b) account = b

abbrev or_text : String → String → String
or_text fallback s = if is_empty s then fallback else s

abbrev or_one : ℤ → ℤ
or_one n = if leb_ℤ n (pos 0) then pos 1 else n

-- The name of the first goods, or the one of the request where there are none.
abbrev order_cargo_name : List ShipmentItem → String → String
order_cargo_name [] given = or_text "商品" (trim_space given)
order_cargo_name (it ∷ its) given = it.goods_name

unfoldable pub goods_count : ℤ → List OrderGoodsDto → ℤ
goods_count n [] = n
goods_count n (g ∷ gs) = goods_count (wrap64 (n +ℤ at_least_one g.num)) gs

abbrev order_cargo_count : ℤ → List OrderGoodsDto → ℤ
order_cargo_count given goods =
    or_one (if leb_ℤ given (pos 0) then goods_count (pos 0) goods else given)

abbrev mode_of : String → String
mode_of mode = or_text "self" (trim_space mode)

abbrev is_appoint : String → Bool
is_appoint mode = equal_fold (mode_of mode) "appoint"

abbrev source_system_of : String → String
source_system_of s = or_text "storesyncagent" (trim_space s)

-- `sourceRef`, with the order's number in the order centre where the order has none of its own.
unfoldable pub order_source_ref : ℕ → OrderSnapshotDto → String
order_source_ref order_id order =
    let given =
      first_non_empty_trim (order.sys_tid ∷ trim_space order.order_no ∷ order.source_tid ∷ []) in
    if is_empty given && not (order_id == 0) then "OC" +++ decimal order_id else given

unfoldable pub order_no_of : ℕ → OrderSnapshotDto → String
order_no_of order_id order =
    if not (is_empty (trim_space order.order_no))
    then trim_space order.order_no
    else if upper_has_prefix (trim_space order.source_tid) "OC"
    then trim_space order.source_tid
    else if upper_has_prefix (order_source_ref order_id order) "OC"
    then order_source_ref order_id order
    else ""

abbrev express_type_of : String → String → String
express_type_of given account = or_text (or_text "2" (trim_space account)) (trim_space given)

abbrev pay_method_of : ℤ → ℤ
pay_method_of (pos zero) = pos 1
pay_method_of n = n

module _ (is_time : String → Bool) where
  -- The refusals after the shipper profile was read.
  unfoldable pub order_refused : CreateShipmentFromOrderDto → CarrierAccount → ShipperProfile → Bool
  order_refused inp c p =
      not p.enabled
      || (monthly_of inp.use_monthly c.use_monthly && is_empty (trim_space c.cust_id))
      || (is_appoint inp.pickup_mode && is_empty (trim_space inp.send_start_tm))
      || (not (is_empty (trim_space inp.send_start_tm))
          && not (is_time (trim_space inp.send_start_tm)))
      || (str_eq (source_system_of inp.source_system) "ordercore" && inp.order_id == 0)
      || is_empty (order_source_ref inp.order_id inp.order)
      || is_empty (trim_space inp.order.receiver.address)
      || is_empty (trim_space inp.order.receiver.name)
      || is_empty (trim_space inp.order.receiver.mobile)

-- The row as it is created; the columns that are not set are empty.
abbrev pub drafted : ℕ → ℕ → CreateShipmentFromOrderDto → CarrierAccount → ShipperProfile → Shipment
drafted id tenant inp c p = record {
  id = id;
  tenant_id = tenant;
  source_system = source_system_of inp.source_system;
  source_ref = order_source_ref inp.order_id inp.order;
  source_tid = trim_space inp.order.source_tid;
  order_no = order_no_of inp.order_id inp.order;
  platform = trim_space inp.order.platform;
  shop_id = trim_space inp.order.shop_id;
  shop_name = trim_space inp.order.shop_name;
  source_channel = trim_space inp.order.source_channel;
  manual_source_name = trim_space inp.order.manual_source_name;
  carrier_account_id = c.id;
  shipper_profile_id = p.id;
  receiver = trimmed inp.order.receiver;
  shipper = record {
    name = p.name;
    mobile = p.mobile;
    province = p.province;
    city = p.city;
    county = p.county;
    address = p.address;
  };
  shipper_company = p.company;
  use_monthly = monthly_of inp.use_monthly c.use_monthly;
  pay_method = pay_method_of inp.pay_method;
  cust_id = if monthly_of inp.use_monthly c.use_monthly then c.cust_id else "";
  express_type = express_type_of inp.express_type c.express_type;
  order_core_order_id = inp.order_id;
  group_id = inp.group_id;
  mail_no = "";
  ship_via = "sf";
  express_company = "";
  sf_order_id = "";
  label_url = "";
  label_pdf_url = "";
  label_token = "";
  label_data = "";
  status = draft;
  error_message = "";
  shipped_at = none;
  printed_at = none;
  cargo_name = order_cargo_name (map goods_item inp.order.goods) inp.cargo_name;
  parcel_qty = or_one inp.parcel_qty;
  cargo_count = order_cargo_count inp.cargo_count inp.order.goods;
  remark = trim_space inp.remark;
  pickup_mode = mode_of inp.pickup_mode;
  send_start_tm = if is_appoint inp.pickup_mode then trim_space inp.send_start_tm else "";
  reship = inp.reship;
  items = map goods_item inp.order.goods;
}

abbrev pub OrderAnswered : Type 0
OrderAnswered = Result Shipment × World × PlanTable

module _ (is_time : String → Bool) (o : Outside) (tenant : ℕ) where
  abbrev pub insert_draft :
      CreateShipmentFromOrderDto
      → CarrierAccount
      → ShipperProfile
      → World
      → PlanTable
      → OrderAnswered
  insert_draft inp c p w plans =
      let w' = add_shipment (drafted w.next_shipment tenant inp c p) w in
      (
        get_shipment o tenant w.next_shipment w',
        w',
        apply_progress_from_goods tenant (map shipped_goods inp.order.goods) plans,
      )

  abbrev pub with_shipper :
      CreateShipmentFromOrderDto
      → CarrierAccount
      → World
      → PlanTable
      → Result ShipperProfile
      → OrderAnswered
  with_shipper inp c w plans (err e) = (err e, w, plans)
  with_shipper inp c w plans (ok p) =
      if order_refused is_time inp c p
      then (err bad_request, w, plans)
      else insert_draft inp c p w plans

  abbrev pub with_account :
      CreateShipmentFromOrderDto
      → World
      → ShipperTable
      → PlanTable
      → Result CarrierAccount
      → OrderAnswered
  with_account inp w shippers plans (err e) = (err e, w, plans)
  with_account inp w shippers plans (ok c) =
      if not c.enabled || not (has_credentials c)
      then (err bad_request, w, plans)
      else with_shipper inp c w plans (get_profile tenant inp.shipper_profile_id shippers)

  unfoldable pub create_from_order :
      CreateShipmentFromOrderDto → World → ShipperTable → PlanTable → OrderAnswered
  create_from_order inp w shippers plans =
      if inp.carrier_account_id == 0 || inp.shipper_profile_id == 0
      then (err bad_request, w, plans)
      else with_account inp w shippers plans (get_carrier tenant inp.carrier_account_id w)
