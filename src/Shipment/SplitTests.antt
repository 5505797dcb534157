-- ===== src/Shipment/SplitTests.antt =====
-- The theorems on split orders, at an order that is sent in two parcels.
use shipping_core.Base.{String, false, ℕ, ◌≡◌, refl, [], ◌∷◌, arith}
use shipping_core.Base.Int.{pos, ◌+ℤ◌, wrap64}
use shipping_core.Base.Text.{trim_space, first_non_empty_trim}
use shipping_core.Errors.{ok}
use shipping_core.Shipment.Split.{
  SplitShipLineDto, ConfirmKdzsSplitShipDto, GroupTable, PkgGoods, split_line_ok, bucket_lines,
  PkgBucket, put_goods, parcel_request, confirm_kdzs_split_ship,
}
use shipping_core.Shipment.Single.{IsSingle}
use shipping_core.Shipment.Parcels.{confirm_kdzs_split_ship-IsSingle, all_ok}
use shipping_core.Shipment.Merged.{nums}
use shipping_core.Shipment.Goods.{entries, parcel_request-entries}
use shipping_core.Shipment.SyncTests.{snapshot, helper_world, closed, plans, IsSingle-parcel}

abbrev line_of : ℕ → ℕ → String → SplitShipLineDto
line_of item qty' no' = record {
  order_item_id = item;
  plan_line_id = 0;
  qty = pos qty';
  express_no = no';
  express_company = "";
  title = "tea";
  sku_name = "";
  outer_id = "";
}

abbrev split_request : ConfirmKdzsSplitShipDto
split_request = record {
  order_id = 7;
  express_company = "";
  order = snapshot;
  lines = line_of 3 1 " K7" ∷ line_of 0 0 "K8" ∷ line_of 3 4 "K7 " ∷ [];
}

abbrev same_case : String → String
same_case s = s

abbrev groups : GroupTable
groups = record { groups = []; next_group = 1 }

abbrev tea : ℕ → PkgGoods
tea n = record {
  order_item_id = 3;
  qty = pos n;
  title = "tea";
  sku_name = "";
  outer_id = "";
  company = "";
}

-- The lines of one number are one parcel.
bucket_lines_test :
    bucket_lines same_case [] split_request.lines
    ≡ ok (
        record { key = "K7"; express_no = "K7"; goods = tea 1 ∷ tea 4 ∷ [] }
        ∷ record { key = "K8"; express_no = "K8"; goods = [] }
        ∷ [])
unfolding bucket_lines put_goods split_line_ok trim_space first_non_empty_trim
bucket_lines_test = refl

confirm_kdzs_split_ship-IsSingle_example :
    IsSingle 1
      (confirm_kdzs_split_ship same_case closed 1
        (λ i. i)
        split_request
        helper_world
        plans
        groups).1.shipments
confirm_kdzs_split_ship-IsSingle_example =
    confirm_kdzs_split_ship-IsSingle same_case closed 1 (λ i. i) split_request helper_world plans
      groups IsSingle-parcel

abbrev bad_split : ConfirmKdzsSplitShipDto
bad_split = record split_request { lines = line_of 3 1 "K7" ∷ line_of 3 0 "K8" ∷ [] }

is_bad : all_ok bad_split.lines ≡ false
unfolding split_line_ok trim_space first_non_empty_trim
is_bad = refl

abbrev loose : PkgGoods
loose = record (tea 2) { order_item_id = 0; sku_name = "sample" }

abbrev one_parcel : PkgBucket
one_parcel = record { key = "K7"; express_no = "K7"; goods = tea 1 ∷ loose ∷ tea 4 ∷ [] }

entries_test : entries 3 [] one_parcel.goods ≡ pos 5 ∷ []
unfolding wrap64 ◌+ℤ◌
entries_test = refl

parcel_request-entries_example :
    nums 3 (parcel_request split_request 1 one_parcel).order.goods ≡ entries 3 [] one_parcel.goods
parcel_request-entries_example =
    parcel_request-entries split_request 1 one_parcel 3
      (omega arith, (omega arith, (omega arith, tt)))
