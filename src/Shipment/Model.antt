-- ===== src/Shipment/Model.antt =====
-- The rows of shipments and carrier accounts (internal/model/models.go). Weights, dimensions and prices are floats that the
-- operations only copy, and are left out, as are the notes to the courier and the row's timestamps.
use shipping_core.Base.{ℕ, String, Bool, true, false, Option, List}
use shipping_core.Base.Int.{ℤ}

pub data Status : Type 0 where
  draft created printed cancelled failed : Status

abbrev pub is_cancelled : Status → Bool
is_cancelled cancelled = true
is_cancelled _ = false

pub record ShipmentItem : Type 0 where
  pub order_item_id : ℕ
  pub goods_name : String
  pub quantity : ℤ
  pub sku_code : String
  pub outer_id : String

-- Name, mobile, province, city, county and address of one end.
pub record Contact : Type 0 where
  pub name : String
  pub mobile : String
  pub province : String
  pub city : String
  pub county : String
  pub address : String

pub record Shipment : Type 0 where
  pub id : ℕ
  pub tenant_id : ℕ
  pub source_system : String
  pub source_ref : String
  pub source_tid : String
  pub order_no : String
  pub platform : String
  pub shop_id : String
  pub shop_name : String
  pub source_channel : String
  pub manual_source_name : String
  pub carrier_account_id : ℕ
  pub shipper_profile_id : ℕ
  pub receiver : Contact
  pub shipper : Contact
  pub shipper_company : String
  pub use_monthly : Bool
  pub pay_method : ℤ
  pub cust_id : String
  pub express_type : String
  pub order_core_order_id : ℕ
  pub group_id : Option ℕ
  pub mail_no : String
  pub ship_via : String
  pub express_company : String
  pub sf_order_id : String
  pub label_url : String
  pub label_pdf_url : String
  pub label_token : String
  pub label_data : String
  pub status : Status
  pub error_message : String
  pub shipped_at : Option ℕ
  pub printed_at : Option ℕ
  pub cargo_name : String
  pub parcel_qty : ℤ
  pub cargo_count : ℤ
  pub remark : String
  pub pickup_mode : String
  pub send_start_tm : String
  pub reship : Bool
  pub items : List ShipmentItem

pub record CarrierAccount : Type 0 where
  pub id : ℕ
  pub tenant_id : ℕ
  pub carrier_code : String
  pub name : String
  pub partner_id : String
  pub checkword : String
  pub use_monthly : Bool
  pub cust_id : String
  pub express_type : String
  pub template_code : String
  pub custom_template_code : String
  pub sign_mode : String
  pub print_channel : String
  pub print_logo : Bool
  pub env : String
  pub enabled : Bool
  pub remark : String
