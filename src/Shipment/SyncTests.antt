-- ===== src/Shipment/SyncTests.antt =====
-- The theorems on confirmed, synchronised and deleted shipments, at a tenant with one shipment.
use shipping_core.Base.{◌≡◌, refl, false, none, some, [], ◌∷◌, arith}
use shipping_core.Base.Int.{pos}
use shipping_core.Base.Text.{trim_space, upper_has_prefix}
use shipping_core.Errors.{ok}
use shipping_core.Plan.Rows.{PlanTable}
use shipping_core.Shipment.Model.{Shipment}
use shipping_core.Shipment.World.{Outside, World, refusal}
use shipping_core.Shipment.Snapshot.{OrderSnapshotDto, snapshot_order_no, new_shipment}
use shipping_core.Shipment.Confirm.{ConfirmKdzsShipDto, confirm_kdzs_ship}
use shipping_core.Shipment.Sync.{UpsertKdzsFromSyncDto, upsert_kdzs_from_sync, delete_by_order_core}
use shipping_core.Shipment.Single.{IsSingle, IsSingle-append, confirm_kdzs_ship-IsSingle}
use shipping_core.Shipment.Synced.{upsert_kdzs_from_sync-IsSingle}

abbrev pub snapshot : OrderSnapshotDto
snapshot = record {
  platform = "p";
  shop_id = "";
  shop_name = "";
  source_channel = "";
  manual_source_name = "";
  order_no = "";
  sys_tid = "";
  source_tid = " OC7 ";
  receiver = record {
    name = "A";
    mobile = "1";
    province = "";
    city = "";
    county = "";
    address = "E";
  };
  goods =
      record {
        order_item_id = 3;
        plan_line_id = 4;
        title = "tea";
        sku_name = "green";
        num = pos 2;
        outer_id = "";
      }
      ∷ [];
}

abbrev helper_parcel : Shipment
helper_parcel = new_shipment 5 1 7 "K1" "快递" none false 80 snapshot

-- The number of the order is read off the source's number.
order_no_test : snapshot_order_no snapshot ≡ "OC7"
unfolding snapshot_order_no trim_space upper_has_prefix
order_no_test = refl

abbrev pub helper_world : World
helper_world = record {
  shipments = helper_parcel ∷ [];
  next_shipment = 6;
  carriers = [];
  calls = [];
}

abbrev pub closed : Outside
closed = record {
  has_order_core = false;
  has_store = false;
  resolve_url = λ url. url;
  on_create = λ _. refusal "no";
  on_cancel = λ _. refusal "no";
  on_print = λ _. refusal "no";
  on_ship = λ _. refusal "no";
  on_unship = λ _. refusal "no";
}

abbrev pub plans : PlanTable
plans = record { rows = []; next_id = 1 }

pub IsSingle-parcel : IsSingle 1 helper_world.shipments
IsSingle-parcel = IsSingle-append 1 [] (λ order_id no' nz full. ground arith) helper_parcel refl

abbrev confirmation : ConfirmKdzsShipDto
confirmation = record {
  order_id = 7;
  express_no = " K1 ";
  express_company = "";
  order = snapshot;
  group_id = none;
  reship = false;
}

abbrev sync_request : UpsertKdzsFromSyncDto
sync_request = record {
  order_id = 7;
  express_no = "K2";
  express_company = "";
  shipped_at = some 70;
  order = snapshot;
}

confirm_kdzs_ship-IsSingle_example :
    IsSingle 1 (confirm_kdzs_ship closed 1 90 confirmation helper_world plans).1.shipments
confirm_kdzs_ship-IsSingle_example =
    confirm_kdzs_ship-IsSingle closed 1 90 confirmation helper_world plans IsSingle-parcel

upsert_kdzs_from_sync-IsSingle_example :
    IsSingle 1 (upsert_kdzs_from_sync closed 1 90 sync_request helper_world).1.shipments
upsert_kdzs_from_sync-IsSingle_example =
    upsert_kdzs_from_sync-IsSingle closed 1 90 sync_request helper_world IsSingle-parcel

one_deleted : (delete_by_order_core 1 7 "" helper_world).0 ≡ ok 1
unfolding delete_by_order_core trim_space
one_deleted = refl
