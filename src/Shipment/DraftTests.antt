-- ===== src/Shipment/DraftTests.antt =====
-- The theorems on drafts, at an order of a tenant with an account and a shipper profile.
use shipping_core.Base.{String, ◌≡◌, refl, Bool, true, false, none, some, [], ◌∷◌, not}
use shipping_core.Base.Int.{pos}
use shipping_core.Base.Text.{is_empty, trim_space, equal_fold, first_non_empty_trim}
use shipping_core.Errors.{err, ok, bad_request}
use shipping_core.Shipper.Profiles.{ShipperProfile, ShipperTable, get_profile}
use shipping_core.Shipment.Model.{Shipment}
use shipping_core.Shipment.World.{World, get_shipment, found_shipment, loaded, get_carrier}
use shipping_core.Shipment.Waybill.{create_waybill}
use shipping_core.Shipment.Issued.{HasNumber}
use shipping_core.Shipment.Rows.{stored}
use shipping_core.Shipment.Order.{
  CreateShipmentFromOrderDto, create_from_order, order_refused, drafted, order_source_ref,
}
use shipping_core.Shipment.Drafts.{create_from_order_refused, create_from_order-create_waybill}
use shipping_core.Shipment.Tests.{account, number, granting}
use shipping_core.Shipment.SyncTests.{snapshot, plans}

abbrev profile : ShipperProfile
profile = record {
  id = 4;
  tenant_id = 1;
  name = "A";
  company = "";
  mobile = "1";
  province = "P";
  city = "C";
  county = "D";
  address = "E";
  is_default = true;
  enabled = true;
}

abbrev shippers : ShipperTable
shippers = record { rows = profile ∷ []; next_id = 5 }

abbrev empty_world : World
empty_world = record { shipments = []; next_shipment = 9; carriers = account ∷ []; calls = [] }

-- Any text that is not empty stands for a time.
abbrev any_time : String → Bool
any_time s = not (is_empty s)

abbrev request : CreateShipmentFromOrderDto
request = record {
  carrier_account_id = 2;
  shipper_profile_id = 4;
  use_monthly = none;
  express_type = "";
  pay_method = pos 0;
  remark = "";
  cargo_name = "";
  parcel_qty = pos 0;
  cargo_count = pos 0;
  pickup_mode = "Appoint";
  send_start_tm = "2026-01-01 10:00:00";
  order_id = 7;
  source_system = "ordercore";
  group_id = none;
  reship = false;
  order = snapshot;
}

abbrev new_draft : Shipment
new_draft = drafted 9 1 request account profile

draft_made :
    (create_from_order any_time granting 1 request empty_world shippers plans).0 ≡ ok new_draft
unfolding create_from_order get_carrier get_profile order_refused get_shipment found_shipment loaded
    trim_space equal_fold order_source_ref first_non_empty_trim
draft_made = refl

create_from_order-create_waybill_example :
    (x : Shipment) × (stored 1 9
        (create_waybill granting 1 50 9
          (create_from_order any_time granting 1 request empty_world shippers plans).1).1
      ≡ some x)
    × HasNumber 50 number new_draft x
create_from_order-create_waybill_example =
    create_from_order-create_waybill any_time granting 1 50 request empty_world shippers plans
      new_draft number refl draft_made refl

-- An appointment needs a time.
abbrev untimed : CreateShipmentFromOrderDto
untimed = record request { send_start_tm = " " }

untimed_refused :
    (create_from_order any_time granting 1 untimed empty_world shippers plans).0 ≡ err bad_request
unfolding create_from_order get_carrier get_profile order_refused trim_space equal_fold
    order_source_ref first_non_empty_trim
untimed_refused = refl

create_from_order_refused_example :
    ((create_from_order any_time granting 1 untimed empty_world shippers plans).1 ≡ empty_world)
    × ((create_from_order any_time granting 1 untimed empty_world shippers plans).2 ≡ plans)
create_from_order_refused_example =
    create_from_order_refused any_time granting 1 untimed empty_world shippers plans bad_request
      untimed_refused
