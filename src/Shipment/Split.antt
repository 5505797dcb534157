-- ===== src/Shipment/Split.antt =====
-- `ConfirmKdzsSplitShip`, `CreateShipmentGroup` and `GetShipmentGroup`: an order that is sent in
-- several parcels. `to_upper` is Go's `strings.ToUpper`; the clock is read once for each parcel.
use shipping_core.Base.{
  ℕ, ◌+◌, ◌-◌, String, Bool, true, false, not, ◌&&◌, ◌||◌, Option, none, some, List, [], ◌∷◌, ◌++◌,
  map, ◌==◌, if◌then◌else◌, filter,
}
use shipping_core.Base.Int.{ℤ, pos, ◌+ℤ◌, wrap64, leb_ℤ, ltb_ℤ}
use shipping_core.Base.Text.{is_empty, trim_space, str_eq, first_non_empty_trim, ◌+++◌}
use shipping_core.Base.Table.{first}
use shipping_core.Base.Order.{order_by, by_key}
use shipping_core.Errors.{Err, order_core, Result, ok, err, bad_request}
use shipping_core.Plan.Rows.{PlanTable}
use shipping_core.Plan.Progress.{Shipped, apply_progress_from_split_lines}
use shipping_core.Shipment.Model.{Shipment, Status, printed, is_cancelled}
use shipping_core.Shipment.World.{Outside, World, loaded}
use shipping_core.Shipment.Snapshot.{OrderGoodsDto, OrderSnapshotDto, express_company_or}
use shipping_core.Shipment.Confirm.{ConfirmKdzsShipDto, confirm_kdzs_ship}

-- A line of the request: goods and their parcel number.
pub record SplitShipLineDto : Type 0 where
  pub order_item_id : ℕ
  pub plan_line_id : ℕ
  pub qty : ℤ
  pub express_no : String
  pub express_company : String
  pub title : String
  pub sku_name : String
  pub outer_id : String

pub record ConfirmKdzsSplitShipDto : Type 0 where
  pub order_id : ℕ
  pub express_company : String
  pub order : OrderSnapshotDto
  pub lines : List SplitShipLineDto

pub record ShipmentGroup : Type 0 where
  pub id : ℕ
  pub tenant_id : ℕ
  pub order_core_order_id : ℕ
  pub order_no : String
  pub source_ref : String
  pub ship_via : String
  pub status : Status
  pub shipments : List Shipment

pub record GroupTable : Type 0 where
  pub groups : List ShipmentGroup
  pub next_group : ℕ

pub record CreateShipmentGroupDto : Type 0 where
  pub order_id : ℕ
  pub order_no : String
  pub source_ref : String
  pub ship_via : String

abbrev ship_via_or : String → String
ship_via_or via = if is_empty (trim_space via) then "kdzs" else trim_space via

abbrev new_group : ℕ → ℕ → CreateShipmentGroupDto → ShipmentGroup
new_group id tenant inp = record {
  id = id;
  tenant_id = tenant;
  order_core_order_id = inp.order_id;
  order_no = trim_space inp.order_no;
  source_ref = trim_space inp.source_ref;
  ship_via = ship_via_or inp.ship_via;
  status = printed;
  shipments = [];
}

unfoldable pub create_shipment_group :
    ℕ → CreateShipmentGroupDto → GroupTable → ShipmentGroup × GroupTable
create_shipment_group tenant inp t =
    let g = new_group t.next_group tenant inp in
    (g, record { groups = t.groups ++ g ∷ []; next_group = t.next_group + 1 })

-- One article of a parcel, and the parcel under the upper case of its number.
pub record PkgGoods : Type 0 where
  pub order_item_id : ℕ
  pub qty : ℤ
  pub title : String
  pub sku_name : String
  pub outer_id : String
  pub company : String

pub record PkgBucket : Type 0 where
  pub key : String
  pub express_no : String
  pub goods : List PkgGoods

-- A parcel without goods, and goods that are no article of the order.
abbrev pub is_empty_pkg : SplitShipLineDto → Bool
is_empty_pkg l = l.order_item_id == 0 && leb_ℤ l.qty (pos 0)

abbrev pub is_free_form : SplitShipLineDto → Bool
is_free_form l = l.order_item_id == 0 && ltb_ℤ (pos 0) l.qty

-- The tests of a line, in the code's order; each refusal is the same error.
unfoldable pub split_line_ok : SplitShipLineDto → Bool
split_line_ok l =
    if is_empty (trim_space l.express_no)
    then false
    else if not (is_empty_pkg l) && not (is_free_form l) && l.order_item_id == 0
    then false
    else if not (is_empty_pkg l) && not (is_free_form l) && leb_ℤ l.qty (pos 0)
    then false
    else if is_free_form l && is_empty (first_non_empty_trim (l.sku_name ∷ l.title ∷ []))
    then false
    else true

abbrev pkg_goods : SplitShipLineDto → PkgGoods
pkg_goods l = record {
  order_item_id = l.order_item_id;
  qty = l.qty;
  title = trim_space l.title;
  sku_name = trim_space l.sku_name;
  outer_id = trim_space l.outer_id;
  company = trim_space l.express_company;
}

abbrev line_goods : SplitShipLineDto → List PkgGoods
line_goods l = if is_empty_pkg l then [] else pkg_goods l ∷ []

-- The parcels in the order of `orderKeys`: goods go to the parcel with the key, or to a new one.
unfoldable pub put_goods : String → String → List PkgGoods → List PkgBucket → List PkgBucket
put_goods key no' gs [] = record { key = key; express_no = no'; goods = gs } ∷ []
put_goods key no' gs (b ∷ bs) =
    let rest = put_goods key no' gs bs in
    if str_eq b.key key then record b { goods = b.goods ++ gs } ∷ bs else b ∷ rest

module _ (to_upper : String → String) where
  abbrev pub put_line : SplitShipLineDto → List PkgBucket → List PkgBucket
  put_line l bs =
      put_goods (to_upper (trim_space l.express_no)) (trim_space l.express_no) (line_goods l) bs

  unfoldable pub bucket_lines : List PkgBucket → List SplitShipLineDto → Result (List PkgBucket)
  bucket_lines bs [] = ok bs
  bucket_lines bs (l ∷ ls) =
      let rest = bucket_lines (put_line l bs) ls in
      if split_line_ok l then rest else err bad_request

abbrev pub is_nil {ℓ} : {A : Type ℓ} → List A → Bool
is_nil [] = true
is_nil (a ∷ l) = false

abbrev pub has_goods : PkgBucket → Bool
has_goods b = not (is_nil b.goods)

-- The stable sort: the parcels with goods before those without.
unfoldable pub goods_first : List PkgBucket → List PkgBucket
goods_first bs = filter has_goods bs ++ filter (λ b. not (has_goods b)) bs

abbrev pub no_goods : OrderGoodsDto
no_goods = record {
  order_item_id = 0;
  plan_line_id = 0;
  title = "";
  sku_name = "";
  num = pos 0;
  outer_id = "";
}

-- `goodsByID[id]`: the last goods of the order with that id; 0 is no key.
unfoldable pub goods_by_id : ℕ → OrderGoodsDto → List OrderGoodsDto → OrderGoodsDto
goods_by_id id found [] = found
goods_by_id id found (g ∷ gs) =
    goods_by_id id (if not (g.order_item_id == 0) && g.order_item_id == id then g else found) gs

unfoldable pub bucket_company : String → List PkgGoods → String
bucket_company company [] = company
bucket_company company (g ∷ gs) =
    bucket_company
      (if is_empty (first_non_empty_trim (g.company ∷ []))
        then company
        else first_non_empty_trim (g.company ∷ []))
      gs

-- The maps and the counter of the merging.
pub record Merging : Type 0 where
  pub merged : List (ℕ × OrderGoodsDto)
  pub merge_order : List ℕ
  pub free_idx : ℕ

abbrev pub find_merged : ℕ → List (ℕ × OrderGoodsDto) → Option OrderGoodsDto
find_merged k [] = none
find_merged k ((j, r) ∷ m) = let rest = find_merged k m in if j == k then some r else rest

-- `merged[k] = &row`
unfoldable pub set_merged : ℕ → OrderGoodsDto → List (ℕ × OrderGoodsDto) → List (ℕ × OrderGoodsDto)
set_merged k row [] = (k, row) ∷ []
set_merged k row ((j, r) ∷ m) =
    let rest = set_merged k row m in if j == k then (k, row) ∷ m else (j, r) ∷ rest

abbrev pub add_num : ℤ → OrderGoodsDto → OrderGoodsDto
add_num n r = record r { num = wrap64 (r.num +ℤ n) }

-- The row that an article starts; its price is left out.
abbrev pub merged_row : OrderGoodsDto → PkgGoods → OrderGoodsDto
merged_row base g = record {
  order_item_id = g.order_item_id;
  plan_line_id = 0;
  title = first_non_empty_trim (g.title ∷ base.title ∷ []);
  sku_name = first_non_empty_trim (g.sku_name ∷ g.title ∷ base.sku_name ∷ base.title ∷ []);
  num = g.qty;
  outer_id = first_non_empty_trim (g.outer_id ∷ base.outer_id ∷ []);
}

-- `^uint64(0) - freeIdx`
abbrev pub free_key : ℕ → ℕ
free_key i = 18446744073709551615 - i

abbrev pub merge_bound : PkgGoods → OrderGoodsDto → Merging → Option OrderGoodsDto → Merging
merge_bound g row st none = record st {
  merged = set_merged g.order_item_id row st.merged;
  merge_order = st.merge_order ++ g.order_item_id ∷ [];
}
merge_bound g row st (some cur) = record st {
  merged = set_merged g.order_item_id (add_num g.qty cur) st.merged;
}

abbrev pub merge_free : OrderGoodsDto → Merging → Merging
merge_free row st = record {
  merged = set_merged (free_key (st.free_idx + 1)) row st.merged;
  merge_order = st.merge_order ++ free_key (st.free_idx + 1) ∷ [];
  free_idx = st.free_idx + 1;
}

unfoldable pub merge_one : List OrderGoodsDto → Merging → PkgGoods → Merging
merge_one order_goods st g =
    let row = merged_row (goods_by_id g.order_item_id no_goods order_goods) g in
    if g.order_item_id == 0
    then merge_free row st
    else merge_bound g row st (find_merged g.order_item_id st.merged)

unfoldable pub merge_goods : List OrderGoodsDto → Merging → List PkgGoods → Merging
merge_goods order_goods st [] = st
merge_goods order_goods st (g ∷ gs) = merge_goods order_goods (merge_one order_goods st g) gs

abbrev pub no_merging : Merging
no_merging = record { merged = []; merge_order = []; free_idx = 0 }

abbrev pub merged_or : Option OrderGoodsDto → OrderGoodsDto
merged_or none = no_goods
merged_or (some r) = r

unfoldable pub snap_goods : Merging → List OrderGoodsDto
snap_goods st = map (λ k. merged_or (find_merged k st.merged)) st.merge_order

-- What one parcel's confirmation is asked.
unfoldable pub parcel_request : ConfirmKdzsSplitShipDto → ℕ → PkgBucket → ConfirmKdzsShipDto
parcel_request inp group b = record {
  order_id = inp.order_id;
  express_no = b.express_no;
  express_company = bucket_company (express_company_or inp.express_company) b.goods;
  order = record inp.order { goods = snap_goods (merge_goods inp.order.goods no_merging b.goods) };
  group_id = some group;
  reship = false;
}

-- `fmt.Errorf("运单 %s 确认失败: %w", …)`
abbrev parcel_failed : String → Err → Err
parcel_failed no' (order_core text) = order_core ("运单 " +++ no' +++ " 确认失败: " +++ text)
parcel_failed no' e = e

abbrev pub Confirmed : Type 0
Confirmed = Result (List Shipment) × World × PlanTable

abbrev pub with_shipment : Shipment → Confirmed → Confirmed
with_shipment s (err e, w, plans) = (err e, w, plans)
with_shipment s (ok ss, w, plans) = (ok (s ∷ ss), w, plans)

-- The first parcel that fails ends the loop; those before it stay.
abbrev pub after_parcel :
    String → (World → PlanTable → Confirmed) → Result Shipment × World × PlanTable → Confirmed
after_parcel no' rest (err e, w, plans) = (err (parcel_failed no' e), w, plans)
after_parcel no' rest (ok s, w, plans) = with_shipment s (rest w plans)

module _ (o : Outside) (tenant : ℕ) (clock : ℕ → ℕ) (inp : ConfirmKdzsSplitShipDto)
    (group : ℕ) where
  unfoldable pub confirm_parcels : ℕ → List PkgBucket → World → PlanTable → Confirmed
  confirm_parcels i [] w plans = (ok [], w, plans)
  confirm_parcels i (b ∷ bs) w plans =
      after_parcel b.express_no (λ w' plans'. confirm_parcels (i + 1) bs w' plans')
        (confirm_kdzs_ship o tenant (clock i) (parcel_request inp group b) w plans)

abbrev split_shipped : SplitShipLineDto → Shipped
split_shipped l = record { plan_line_id = l.plan_line_id; num = l.qty }

abbrev pub SplitAnswer : Type 0
SplitAnswer = Result ShipmentGroup × World × PlanTable × GroupTable

abbrev pub split_confirmed :
    ℕ → List SplitShipLineDto → ShipmentGroup × GroupTable → Confirmed → SplitAnswer
split_confirmed tenant lines (g, groups) (err e, w, plans) = (err e, w, plans, groups)
split_confirmed tenant lines (g, groups) (ok ss, w, plans) = (
  ok (record g { shipments = ss }),
  w,
  apply_progress_from_split_lines tenant (map split_shipped lines) plans,
  groups,
)

-- The group that the request creates.
unfoldable pub group_request : ConfirmKdzsSplitShipDto → CreateShipmentGroupDto
group_request inp = record {
  order_id = inp.order_id;
  order_no = trim_space inp.order.order_no;
  source_ref = first_non_empty_trim (
      trim_space inp.order.sys_tid
      ∷ trim_space inp.order.order_no
      ∷ trim_space inp.order.source_tid
      ∷ []);
  ship_via = "kdzs";
}

module _ (to_upper : String → String) (o : Outside) (tenant : ℕ) (clock : ℕ → ℕ) where
  abbrev pub split_bucketed :
      ConfirmKdzsSplitShipDto
      → World
      → PlanTable
      → GroupTable
      → Result (List PkgBucket)
      → SplitAnswer
  split_bucketed inp w plans groups (err e) = (err e, w, plans, groups)
  split_bucketed inp w plans groups (ok bs) =
      let created = create_shipment_group tenant (group_request inp) groups in
      split_confirmed tenant inp.lines created
        (confirm_parcels o tenant clock inp created.0.id 0 (goods_first bs) w plans)

  unfoldable pub confirm_kdzs_split_ship :
      ConfirmKdzsSplitShipDto → World → PlanTable → GroupTable → SplitAnswer
  confirm_kdzs_split_ship inp w plans groups =
      if inp.order_id == 0 || is_nil inp.lines
      then (err bad_request, w, plans, groups)
      else split_bucketed inp w plans groups (bucket_lines to_upper [] inp.lines)

-- `GetShipmentGroup`: the group with its shipments that are not cancelled, by their ids.
abbrev is_group : ℕ → Option ℕ → Bool
is_group id none = false
is_group id (some g) = g == id

abbrev in_group : ℕ → Shipment → Bool
in_group id s = is_group id s.group_id && not (is_cancelled s.status)

abbrev shipment_key : Shipment → ℕ
shipment_key s = s.id

unfoldable pub group_found : Outside → World → Option ShipmentGroup → Option ShipmentGroup
group_found o w none = none
group_found o w (some g) = some (record g {
  shipments = map (loaded o) (order_by (by_key shipment_key) (filter (in_group g.id) w.shipments));
})

unfoldable pub get_shipment_group : Outside → ℕ → ℕ → GroupTable → World → Option ShipmentGroup
get_shipment_group o tenant id t w =
    group_found o w (first (λ (g : ShipmentGroup). g.tenant_id == tenant && g.id == id) t.groups)
