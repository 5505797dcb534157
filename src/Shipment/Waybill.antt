-- ===== src/Shipment/Waybill.antt =====
-- `CreateWaybill`: the carrier issues a number for a draft, which is stored before the order centre
-- is told of it. Printing is left to the background.
use shipping_core.Base.{
  ℕ, String, Bool, true, false, not, ◌&&◌, Option, none, some, List, [], ltb, if◌then◌else◌,
}
use shipping_core.Base.Text.{is_empty, trim_space}
use shipping_core.Errors.{Result, ok, err, bad_request, invalid_status, carrier}
use shipping_core.Shipment.Model.{
  Status, draft, created, failed, Shipment, ShipmentItem, CarrierAccount,
}
use shipping_core.Shipment.OrderId.{resolve_sf_customer_order_id}
use shipping_core.Shipment.Cargo.{
  build_sf_cargo_details, shipment_sf_cargo_name, resolve_print_template_code,
}
use shipping_core.Shipment.World.{
  Outside, World, create_order, background_print, Answer, answer, refusal, CreateOrderResult,
  record_call, get_shipment, save_shipment, get_carrier, ship_order_core,
}

abbrev pub shipped_once : ℕ → Option ℕ → Option ℕ
shipped_once now (some t) = some t
shipped_once now none = some now

-- `markShipmentShipped`: the first time counts.
unfoldable pub mark_shipment_shipped : ℕ → Shipment → Shipment
mark_shipment_shipped now s =
    if is_empty (trim_space s.mail_no)
    then s
    else record s { shipped_at = shipped_once now s.shipped_at }

abbrev pub may_create : Status → Bool
may_create draft = true
may_create failed = true
may_create _ = false

abbrev pub has_credentials : CarrierAccount → Bool
has_credentials c =
    not (is_empty (trim_space c.partner_id)) && not (is_empty (trim_space c.checkword))

-- The shipment once the carrier has refused, and once it has answered.
abbrev pub failed_with : String → Shipment → Shipment
failed_with text s = record s { status = failed; error_message = text }

abbrev pub issued : ℕ → CreateOrderResult → Shipment → Shipment
issued now r s = mark_shipment_shipped now (record s {
  sf_order_id = r.sf_order_id;
  mail_no = r.mail_no;
  status = created;
  error_message = "";
})

-- The items that the order centre is told of; none when a shipped order gets one more parcel.
abbrev pub reported_items : Shipment → List ShipmentItem
reported_items s = if s.reship then [] else s.items

module _ (o : Outside) (tenant now : ℕ) where
  -- The print in the background is started if there is a template, and the row is read again.
  abbrev pub finish_waybill :
      CarrierAccount → Shipment → Result (Option ℕ) × World → Result Shipment × World
  finish_waybill c s (err e, w) = (err e, w)
  finish_waybill c s (ok _, w) =
      let w' =
        if is_empty (resolve_print_template_code c)
        then w
        else record_call (background_print s.id) w in
      (get_shipment o tenant s.id w', w')

  abbrev pub tell_order_core : Shipment → World → Result (Option ℕ) × World
  tell_order_core s w =
      if ltb 0 s.order_core_order_id && not (is_empty s.mail_no)
      then ship_order_core o s.order_core_order_id "顺丰" s.mail_no (reported_items s) true w
      else (ok none, w)

  abbrev pub after_create :
      CarrierAccount → Shipment → World → Answer CreateOrderResult → Result Shipment × World
  after_create c s w (refusal text) =
      (err (carrier text), save_shipment tenant (failed_with text s) w)
  after_create c s w (answer r) =
      finish_waybill c (issued now r s)
        (tell_order_core (issued now r s) (save_shipment tenant (issued now r s) w))

  abbrev pub ask_carrier : Shipment → CarrierAccount → World → Result Shipment × World
  ask_carrier s c w =
      let request =
        create_order s (resolve_sf_customer_order_id tenant w.shipments s)
          (build_sf_cargo_details s) (shipment_sf_cargo_name s) in
      let w' = record_call request w in
      if has_credentials c then after_create c s w' (o.on_create w'.calls) else (err bad_request, w)

  abbrev pub with_carrier : Shipment → World → Result CarrierAccount → Result Shipment × World
  with_carrier s w (err e) = (err e, w)
  with_carrier s w (ok c) = ask_carrier s c w

  abbrev pub with_draft : World → Result Shipment → Result Shipment × World
  with_draft w (err e) = (err e, w)
  with_draft w (ok s) =
      if may_create s.status
      then with_carrier s w (get_carrier tenant s.carrier_account_id w)
      else (err invalid_status, w)

  unfoldable pub create_waybill : ℕ → World → Result Shipment × World
  create_waybill id w = with_draft w (get_shipment o tenant id w)
