-- ===== src/Shipment/World.antt =====
-- The state that the operations on shipments work on, and the services outside that they call.
-- Every call of such a service is recorded, the latest first, and its answer may depend on all
-- calls before it.
use shipping_core.Base.{
  ℕ, String, Bool, true, false, not, ◌&&◌, ◌||◌, Option, none, some, List, [], ◌∷◌, ◌==◌,
  if◌then◌else◌,
}
use shipping_core.Base.Int.{ℤ, pos, leb_ℤ}
use shipping_core.Base.Text.{is_empty, trim_space, str_eq}
use shipping_core.Base.Table.{first, update_where}
use shipping_core.Errors.{Result, ok, err, not_found, order_core}
use shipping_core.Shipment.Model.{Shipment, ShipmentItem, CarrierAccount}
use shipping_core.Shipment.Cargo.{CargoDetail}

pub record ShipItemInput : Type 0 where
  pub order_item_id : ℕ
  pub qty : ℤ

-- The calls of the carrier and of the order centre, and the background work that is started.
-- `create_order` has the shipment whose fields are copied into the request, then the order number,
-- the cargo and its name; `cloud_print` tells whether the plugin's interface is asked.
pub data Call : Type 0 where
  create_order : Shipment → String → List CargoDetail → String → Call
  cancel_order : String → String → Call
  cloud_print : Bool → String → String → Call
  ship : ℕ → String → String → List ShipItemInput → Bool → Call
  unship : ℕ → String → Call
  background_print : ℕ → Call
  archive_label : ℕ → Call
  -- an address with its token, and the bytes of a file with its name
  download_label : String → String → Call
  upload_label : List ℕ → String → Call
  get_access_token : String → Call

pub data Answer (A : Type 0) : Type 0 where
  answer : A → Answer A
  refusal : String → Answer A

pub record CreateOrderResult : Type 0 where
  pub sf_order_id : String
  pub mail_no : String

pub record PrintResult : Type 0 where
  pub label_url : String
  pub label_token : String
  pub label_data : String

-- The order's and the parcels' shipping times, as the order centre returns them.
pub record OrderAnswer : Type 0 where
  pub shipped_at : Option ℕ
  pub parcels : List (String × Option ℕ)

-- The services outside; `has_order_core` and `has_store` tell whether they are configured, and
-- `resolve_url` is the address that the configured store makes of a stored one.
pub record Outside : Type 0 where
  pub has_order_core : Bool
  pub has_store : Bool
  pub resolve_url : String → String
  pub on_create : List Call → Answer CreateOrderResult
  pub on_cancel : List Call → Answer (Unit {0})
  pub on_print : List Call → Answer PrintResult
  pub on_ship : List Call → Answer OrderAnswer
  pub on_unship : List Call → Answer (Unit {0})

pub record World : Type 0 where
  pub shipments : List Shipment
  pub next_shipment : ℕ
  pub carriers : List CarrierAccount
  pub calls : List Call

abbrev pub record_call : Call → World → World
record_call c w = record w { calls = c ∷ w.calls }

abbrev pub is_row : ℕ → ℕ → Shipment → Bool
is_row tenant id s = s.tenant_id == tenant && s.id == id

-- The row with the address of its label rewritten.
unfoldable pub loaded : Outside → Shipment → Shipment
loaded o s = if o.has_store then record s { label_pdf_url = o.resolve_url s.label_pdf_url } else s

unfoldable pub found_shipment : Outside → Option Shipment → Result Shipment
found_shipment o none = err not_found
found_shipment o (some s) = ok (loaded o s)

-- `Get`
unfoldable pub get_shipment : Outside → ℕ → ℕ → World → Result Shipment
get_shipment o tenant id w = found_shipment o (first (is_row tenant id) w.shipments)

-- `Save`: every column of the row with the shipment's key.
unfoldable pub save_shipment : ℕ → Shipment → World → World
save_shipment tenant s w = record w {
  shipments = update_where (is_row tenant s.id) (λ _. s) w.shipments;
}

abbrev pub found_carrier : Option CarrierAccount → Result CarrierAccount
found_carrier none = err not_found
found_carrier (some c) = ok c

-- `CarrierService.GetRaw`
unfoldable pub get_carrier : ℕ → ℕ → World → Result CarrierAccount
get_carrier tenant id w =
    found_carrier (first (λ (c : CarrierAccount). c.tenant_id == tenant && c.id == id) w.carriers)

-- The items that are reported: those with a line of the order and a positive quantity.
unfoldable pub ship_items : List ShipmentItem → List ShipItemInput
ship_items [] = []
ship_items (it ∷ its) =
    let rest = ship_items its in
    if it.order_item_id == 0 || leb_ℤ it.quantity (pos 0)
    then rest
    else record { order_item_id = it.order_item_id; qty = it.quantity } ∷ rest

-- `extractOrderShipmentShippedAt`, on the decoded answer.
unfoldable pub parcel_time : String → List (String × Option ℕ) → Option ℕ → Option ℕ
parcel_time no' [] fallback = fallback
parcel_time no' ((n, none) ∷ ps) fallback = parcel_time no' ps fallback
parcel_time no' ((n, some t) ∷ ps) fallback =
    if str_eq (trim_space n) no' then some t else parcel_time no' ps fallback

abbrev is_nil {ℓ} : {A : Type ℓ} → List A → Bool
is_nil [] = true
is_nil (a ∷ l) = false

abbrev pub ship_answered : String → Answer OrderAnswer → Result (Option ℕ)
ship_answered no' (refusal text) = err (order_core text)
ship_answered no' (answer a) = ok (parcel_time (trim_space no') a.parcels a.shipped_at)

-- `shipOrderCore`
unfoldable pub ship_order_core :
    Outside → ℕ → String → String → List ShipmentItem → Bool → World → Result (Option ℕ) × World
ship_order_core o order_id company express_no items callback w =
    let lines = ship_items items in
    let w' = record_call (ship order_id company (trim_space express_no) lines callback) w in
    if not o.has_order_core || order_id == 0 || is_empty (trim_space express_no)
    then (ok none, w)
    else if not (is_nil items) && is_nil lines
    then (err (order_core "发货明细缺少订单商品行 ID；请从待发货重新保存拆分并勾选子行后下单"), w)
    else (ship_answered express_no (o.on_ship w'.calls), w')
