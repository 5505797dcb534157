-- ===== src/Shipment/Tests.antt =====
-- The theorems on shipments, at a tenant with one account and one shipment.
use shipping_core.Base.{ℕ, ◌≡◌, refl, String, true, false, none, some, [], ◌∷◌}
use shipping_core.Base.Int.{pos}
use shipping_core.Base.Text.{trim_space, lower_is, codes_eq, lower_code}
use shipping_core.Errors.{ok, err, invalid_status}
use shipping_core.Shipment.Model.{
  Status, draft, created, cancelled, Contact, Shipment, CarrierAccount,
}
use shipping_core.Shipment.Channel.{via_is, is_kdzs_shipment}
use shipping_core.Shipment.World.{
  Outside, World, save_shipment, answer, refusal, CreateOrderResult, get_shipment, get_carrier,
  loaded, found_shipment,
}
use shipping_core.Shipment.Waybill.{create_waybill, has_credentials}
use shipping_core.Shipment.Print.{print_with_carrier}
use shipping_core.Shipment.Cancel.{unship_order_core, cancel}
use shipping_core.Shipment.Rows.{stored}
use shipping_core.Shipment.Issued.{
  waybill_request, Settled, create_waybill-Settled, create_waybill_once,
}
use shipping_core.Shipment.Printed.{SameParcel, print_with_carrier-SameParcel}
use shipping_core.Shipment.Voided.{cancel-cancelled}
use shipping_core.Shipment.Cancelled.{voided}

abbrev contact : Contact
contact = record {
  name = "A";
  mobile = "1";
  province = "P";
  city = "C";
  county = "D";
  address = "E";
}

abbrev parcel : Status → String → String → ℕ → Shipment
parcel status mail_no ship_via account = record {
  id = 5;
  tenant_id = 1;
  source_system = "";
  source_ref = "";
  source_tid = "OC7";
  order_no = "N7";
  platform = "";
  shop_id = "";
  shop_name = "";
  source_channel = "";
  manual_source_name = "";
  carrier_account_id = account;
  shipper_profile_id = 0;
  receiver = contact;
  shipper = contact;
  shipper_company = "";
  use_monthly = false;
  pay_method = pos 1;
  cust_id = "";
  express_type = "2";
  order_core_order_id = 7;
  group_id = none;
  mail_no = mail_no;
  ship_via = ship_via;
  express_company = "";
  sf_order_id = "";
  label_url = "";
  label_pdf_url = "";
  label_token = "";
  label_data = "";
  status = status;
  error_message = "";
  shipped_at = none;
  printed_at = none;
  cargo_name = "tea";
  parcel_qty = pos 1;
  cargo_count = pos 1;
  remark = "";
  pickup_mode = "";
  send_start_tm = "";
  reship = false;
  items = [];
}

abbrev pub account : CarrierAccount
account = record {
  id = 2;
  tenant_id = 1;
  carrier_code = "SF";
  name = "sf";
  partner_id = "p";
  checkword = "c";
  use_monthly = false;
  cust_id = "";
  express_type = "2";
  template_code = "";
  custom_template_code = "";
  sign_mode = "";
  print_channel = "";
  print_logo = false;
  env = "";
  enabled = true;
  remark = "";
}

abbrev pub world : Shipment → World
world s = record { shipments = s ∷ []; next_shipment = 6; carriers = account ∷ []; calls = [] }

abbrev pub number : CreateOrderResult
number = record { sf_order_id = "N7"; mail_no = "SF1" }

-- Services that grant everything but what the order centre is asked.
abbrev pub granting : Outside
granting = record {
  has_order_core = true;
  has_store = false;
  resolve_url = λ url. url;
  on_create = λ _. answer number;
  on_cancel = λ _. answer tt;
  on_print = λ _. refusal "offline";
  on_ship = λ _. refusal "closed";
  on_unship = λ _. refusal "closed";
}

abbrev refusing : Outside
refusing = record granting { on_create = λ _. refusal "no"; on_cancel = λ _. refusal "no" }

read_draft :
    get_shipment granting 1 5 (world (parcel draft "" "sf" 2)) ≡ ok (parcel draft "" "sf" 2)
unfolding get_shipment found_shipment loaded
read_draft = refl

abbrev new_parcel : Shipment
new_parcel = parcel draft "" "sf" 2

abbrev pub sf_parcel : Shipment
sf_parcel = parcel created "SF1" "sf" 2

abbrev kdzs_parcel : Shipment
kdzs_parcel = parcel created "K1" "kdzs" 0

abbrev dead_parcel : Shipment
dead_parcel = parcel cancelled "SF1" "sf" 2

read_refused : get_shipment refusing 1 5 (world new_parcel) ≡ ok new_parcel
unfolding get_shipment found_shipment loaded
read_refused = refl

read_sf : get_shipment granting 1 5 (world sf_parcel) ≡ ok sf_parcel
unfolding get_shipment found_shipment loaded
read_sf = refl

read_kdzs : get_shipment granting 1 5 (world kdzs_parcel) ≡ ok kdzs_parcel
unfolding get_shipment found_shipment loaded
read_kdzs = refl

read_dead : get_shipment granting 1 5 (world dead_parcel) ≡ ok dead_parcel
unfolding get_shipment found_shipment loaded
read_dead = refl

account_found : (s : Shipment) → get_carrier 1 2 (world s) ≡ ok account
unfolding get_carrier
account_found s = refl

account_known : has_credentials account ≡ true
unfolding trim_space
account_known = refl

create_waybill-Settled_example :
    (x : Shipment) × (stored 1 5 (create_waybill granting 1 90 5 (world new_parcel)).1 ≡ some x)
    × Settled 90 new_parcel
        (granting.on_create (waybill_request 1 (world new_parcel) new_parcel ∷ []))
        x
        (create_waybill granting 1 90 5 (world new_parcel)).0
create_waybill-Settled_example =
    create_waybill-Settled granting 1 90 5 (world new_parcel) new_parcel account read_draft refl
      (account_found new_parcel) account_known

create_waybill_once_example :
    create_waybill refusing 1 99 5 (create_waybill granting 1 90 5 (world new_parcel)).1
    ≡ (err invalid_status, (create_waybill granting 1 90 5 (world new_parcel)).1)
create_waybill_once_example =
    create_waybill_once granting refusing 1 90 99 5 (world new_parcel) new_parcel account number
      read_draft refl (account_found new_parcel) account_known refl

kdzs_not_sf : is_kdzs_shipment kdzs_parcel ≡ true
unfolding is_kdzs_shipment via_is lower_is trim_space codes_eq lower_code
kdzs_not_sf = refl

sf_not_kdzs : is_kdzs_shipment sf_parcel ≡ false
unfolding is_kdzs_shipment via_is lower_is trim_space codes_eq lower_code
sf_not_kdzs = refl

print_with_carrier-SameParcel_example :
    (r : Shipment) × (stored 1 5 (print_with_carrier granting 1 90 5 2 (world sf_parcel)).1
      ≡ some r)
    × SameParcel sf_parcel r
print_with_carrier-SameParcel_example =
    print_with_carrier-SameParcel granting 1 90 5 2 (world sf_parcel) sf_parcel read_sf

abbrev voided_parcel : Shipment
voided_parcel = voided sf_parcel

-- Services that grant the cancelling too.
abbrev agreeing : Outside
agreeing = record granting { on_unship = λ _. answer tt }

sf_cancelled : (cancel agreeing 1 5 (world sf_parcel)).0 ≡ ok voided_parcel
unfolding cancel unship_order_core get_shipment found_shipment loaded get_carrier is_kdzs_shipment
    via_is lower_is trim_space codes_eq lower_code save_shipment
sf_cancelled = refl

cancel-cancelled_example :
    (voided_parcel.status ≡ cancelled)
    × ((r : Shipment) × (stored 1 5 (cancel agreeing 1 5 (world sf_parcel)).1 ≡ some r)
        × (r.status ≡ cancelled))
cancel-cancelled_example =
    cancel-cancelled agreeing 1 5 (world sf_parcel) voided_parcel sf_cancelled
