-- ===== src/Shipment/Snapshot.antt =====
-- The shipment that is built from an order's snapshot when it was printed by the helper: the part
-- that ConfirmKdzsShip and UpsertKdzsFromSync share. Prices are left out.
use shipping_core.Base.{
  ℕ, String, Bool, false, not, ◌&&◌, Option, some, none, List, [], ◌∷◌, map, if◌then◌else◌,
}
use shipping_core.Base.Int.{ℤ, pos}
use shipping_core.Base.Text.{is_empty, trim_space, str_eq, upper_has_prefix, first_non_empty_trim}
use shipping_core.Plan.Progress.{Shipped}
use shipping_core.Shipment.Model.{printed, Contact, Shipment, ShipmentItem}
use shipping_core.Shipment.Cargo.{at_least_one}

pub record OrderGoodsDto : Type 0 where
  pub order_item_id : ℕ
  pub plan_line_id : ℕ
  pub title : String
  pub sku_name : String
  pub num : ℤ
  pub outer_id : String

pub record OrderSnapshotDto : Type 0 where
  pub platform : String
  pub shop_id : String
  pub shop_name : String
  pub source_channel : String
  pub manual_source_name : String
  pub order_no : String
  pub sys_tid : String
  pub source_tid : String
  pub receiver : Contact
  pub goods : List OrderGoodsDto

-- `orderGoodsShipName`
unfoldable pub order_goods_ship_name : OrderGoodsDto → String
order_goods_ship_name g =
    if not (is_empty (trim_space g.sku_name))
    then trim_space g.sku_name
    else if not (is_empty (trim_space g.title))
    then trim_space g.title
    else "商品"

abbrev pub goods_item : OrderGoodsDto → ShipmentItem
goods_item g = record {
  order_item_id = g.order_item_id;
  goods_name = order_goods_ship_name g;
  quantity = at_least_one g.num;
  sku_code = trim_space g.sku_name;
  outer_id = g.outer_id;
}

-- The name of the cargo after the loop over the goods.
unfoldable pub goods_cargo_name : String → List OrderGoodsDto → String
goods_cargo_name name [] = name
goods_cargo_name name (g ∷ gs) =
    goods_cargo_name
      (if str_eq name "商品" && not (is_empty (order_goods_ship_name g))
        then order_goods_ship_name g
        else name)
      gs

unfoldable pub snapshot_order_no : OrderSnapshotDto → String
snapshot_order_no order =
    if not (is_empty (trim_space order.order_no))
    then trim_space order.order_no
    else if upper_has_prefix (trim_space order.source_tid) "OC"
    then trim_space order.source_tid
    else if upper_has_prefix (trim_space order.sys_tid) "OC"
    then trim_space order.sys_tid
    else ""

unfoldable pub snapshot_source_ref : OrderSnapshotDto → String
snapshot_source_ref order =
    if is_empty (trim_space order.sys_tid)
    then first_non_empty_trim (snapshot_order_no order ∷ trim_space order.source_tid ∷ [])
    else trim_space order.sys_tid

abbrev pub trimmed : Contact → Contact
trimmed c = record {
  name = trim_space c.name;
  mobile = trim_space c.mobile;
  province = trim_space c.province;
  city = trim_space c.city;
  county = trim_space c.county;
  address = trim_space c.address;
}

abbrev no_contact : Contact
no_contact = record { name = ""; mobile = ""; province = ""; city = ""; county = ""; address = "" }

abbrev pub express_company_or : String → String
express_company_or company = if is_empty (trim_space company) then "快递" else trim_space company

-- The row as it is created; the columns that are not set have their defaults in the table.
abbrev pub new_shipment :
    ℕ → ℕ → ℕ → String → String → Option ℕ → Bool → ℕ → OrderSnapshotDto → Shipment
new_shipment id tenant order_id express_no company group reship shipped_at order = record {
  id = id;
  tenant_id = tenant;
  source_system = "ordercore";
  source_ref = snapshot_source_ref order;
  source_tid = trim_space order.source_tid;
  order_no = snapshot_order_no order;
  platform = trim_space order.platform;
  shop_id = trim_space order.shop_id;
  shop_name = trim_space order.shop_name;
  source_channel = trim_space order.source_channel;
  manual_source_name = trim_space order.manual_source_name;
  carrier_account_id = 0;
  shipper_profile_id = 0;
  receiver = trimmed order.receiver;
  shipper = no_contact;
  shipper_company = "";
  use_monthly = false;
  pay_method = pos 1;
  cust_id = "";
  express_type = "2";
  order_core_order_id = order_id;
  group_id = group;
  mail_no = express_no;
  ship_via = "kdzs";
  express_company = company;
  sf_order_id = "";
  label_url = "";
  label_pdf_url = "";
  label_token = "";
  label_data = "";
  status = printed;
  error_message = "";
  shipped_at = some shipped_at;
  printed_at = none;
  cargo_name = goods_cargo_name "商品" order.goods;
  parcel_qty = pos 1;
  cargo_count = pos 1;
  remark = "";
  pickup_mode = "self";
  send_start_tm = "";
  reship = reship;
  items = map goods_item order.goods;
}

-- What the plan is told of the goods.
abbrev pub shipped_goods : OrderGoodsDto → Shipped
shipped_goods g = record { plan_line_id = g.plan_line_id; num = g.num }
