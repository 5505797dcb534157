-- ===== src/Shipment/Issued.antt =====
-- What `CreateWaybill` leaves in the table, on each answer of the carrier.
use shipping_core.Base.{
  ℕ, ◌≡◌, refl, sym, ap, ◌∙◌, String, Bool, true, false, Option, none, some, List, ◌∷◌, Bool-cases,
  arith, inl, inr,
}
use mathlib.Core.Bool.{false≢true}
use shipping_core.Base.Text.{is_empty, trim_space}
use shipping_core.Base.Table.{first}
use shipping_core.Errors.{Result, ok, err, invalid_status, carrier}
use shipping_core.Shipment.Model.{Shipment, ShipmentItem, CarrierAccount, created, failed}
use shipping_core.Shipment.OrderId.{resolve_sf_customer_order_id}
use shipping_core.Shipment.Cargo.{build_sf_cargo_details, shipment_sf_cargo_name}
use shipping_core.Shipment.World.{
  Outside, World, Call, create_order, Answer, answer, refusal, CreateOrderResult, record_call,
  loaded, found_shipment, is_row, get_shipment, save_shipment, get_carrier, ship_order_core,
}
use shipping_core.Shipment.Waybill.{
  shipped_once, mark_shipment_shipped, may_create, has_credentials, failed_with, issued,
  finish_waybill, tell_order_core, reported_items, create_waybill,
}
use shipping_core.Shipment.Rows.{stored, stored-save}

-- The call of the carrier that a shipment makes.
abbrev pub waybill_request : ℕ → World → Shipment → Call
waybill_request tenant w s =
    create_order s (resolve_sf_customer_order_id tenant w.shipments s) (build_sf_cargo_details s)
      (shipment_sf_cargo_name s)

pub ship_order_core-shipments :
    (o : Outside) (order_id : ℕ) (company no' : String) (items : List ShipmentItem)
    (callback : Bool) (w : World)
    → (ship_order_core o order_id company no' items callback w).1.shipments ≡ w.shipments
unfolding ship_order_core
ship_order_core-shipments o order_id company no' items callback w = ground arith

finish-shipments :
    (o : Outside) (tenant now : ℕ) (c : CarrierAccount) (s : Shipment)
    (x : Result (Option ℕ) × World)
    → (finish_waybill o tenant now c s x).1.shipments ≡ x.1.shipments
finish-shipments o tenant now c s (err e, w) = refl
finish-shipments o tenant now c s (ok t, w) = ground arith

tell-shipments :
    (o : Outside) (tenant now : ℕ) (s : Shipment) (w : World)
    → (tell_order_core o tenant now s w).1.shipments ≡ w.shipments
tell-shipments o tenant now s w = ground (
  arith,
  ship_order_core-shipments o s.order_core_order_id "顺丰" s.mail_no (reported_items s) true w,
)

-- The number is on the shipment, which keeps its key.
issued-key :
    (now : ℕ) (r : CreateOrderResult) (s : Shipment)
    → ((issued now r s).id ≡ s.id) × ((issued now r s).tenant_id ≡ s.tenant_id)
unfolding mark_shipment_shipped
issued-key now r s = elim (Bool-cases (is_empty (trim_space r.mail_no))) [
  | inl e ↦ (rw e, rw e)
  | inr e ↦ (rw e, rw e)
]

issued-status : (now : ℕ) (r : CreateOrderResult) (s : Shipment) → (issued now r s).status ≡ created
unfolding mark_shipment_shipped
issued-status now r s = elim (Bool-cases (is_empty (trim_space r.mail_no))) [
  | inl e ↦ rw e
  | inr e ↦ rw e
]

pub create_waybill-stores :
    (o : Outside) (tenant now id : ℕ) (w : World) (s : Shipment) (c : CarrierAccount)
    (r : CreateOrderResult)
    → get_shipment o tenant id w ≡ ok s
    → may_create s.status ≡ true
    → get_carrier tenant s.carrier_account_id w ≡ ok c
    → has_credentials c ≡ true
    → o.on_create (waybill_request tenant w s ∷ w.calls) ≡ answer r
    → stored tenant id (create_waybill o tenant now id w).1 ≡ some (issued now r s)
unfolding create_waybill
create_waybill-stores o tenant now id w s c r got may account known answered =
    let w' = save_shipment tenant (issued now r s) (record_call (waybill_request tenant w s) w) in
    let rows =
      finish-shipments o tenant now c (issued now r s)
        (tell_order_core o tenant now (issued now r s) w')
      ∙ tell-shipments o tenant now (issued now r s) w' in
    let saved =
      stored-save o tenant id w s got (issued now r s) (record_call (waybill_request tenant w s) w)
        refl (issued-key now r s).0 (issued-key now r s).1 in
    rw (got, may, account, known, answered) (ap (first (is_row tenant id)) rows ∙ saved)

-- A shipment that is neither a draft nor failed is refused, and nothing is called or changed.
pub create_waybill_refused :
    (o : Outside) (tenant now id : ℕ) (w : World) (s : Shipment)
    → get_shipment o tenant id w ≡ ok s
    → may_create s.status ≡ false
    → create_waybill o tenant now id w ≡ (err invalid_status, w)
unfolding create_waybill
create_waybill_refused o tenant now id w s got may = rw (got, may)

pub create_waybill-fails :
    (o : Outside) (tenant now id : ℕ) (w : World) (s : Shipment) (c : CarrierAccount)
    (text : String)
    → get_shipment o tenant id w ≡ ok s
    → may_create s.status ≡ true
    → get_carrier tenant s.carrier_account_id w ≡ ok c
    → has_credentials c ≡ true
    → o.on_create (waybill_request tenant w s ∷ w.calls) ≡ refusal text
    → ((create_waybill o tenant now id w).0 ≡ err (carrier text))
      × (stored tenant id (create_waybill o tenant now id w).1 ≡ some (failed_with text s))
unfolding create_waybill
create_waybill-fails o tenant now id w s c text got may account known answered =
    let saved =
      stored-save o tenant id w s got (failed_with text s)
        (record_call (waybill_request tenant w s) w) refl refl refl in
    (rw (got, may, account, known, answered), rw (got, may, account, known, answered, saved))

-- The time of shipping after a number has been given: an earlier time stays, and a blank number sets
-- none.
abbrev pub ShippedAt : ℕ → String → Option ℕ → Option ℕ → Type 0
ShippedAt now mail_no (some t) at = at ≡ some t
ShippedAt now mail_no none at =
    (is_empty (trim_space mail_no) ≡ false → at ≡ some now)
    × (is_empty (trim_space mail_no) ≡ true → at ≡ none)

-- The row of a shipment that the carrier has given the number `r`.
abbrev pub HasNumber : ℕ → CreateOrderResult → Shipment → Shipment → Type 0
HasNumber now r s x =
    ShippedAt now r.mail_no s.shipped_at x.shipped_at
    × (x ≡ record s {
      sf_order_id = r.sf_order_id;
      mail_no = r.mail_no;
      status = created;
      error_message = "";
      shipped_at = x.shipped_at;
    })

shipped_once-ShippedAt :
    (now : ℕ) (no' : String) (at : Option ℕ)
    → is_empty (trim_space no') ≡ false
    → ShippedAt now no' at (shipped_once now at)
shipped_once-ShippedAt now no' (some t) h = refl
shipped_once-ShippedAt now no' none h = (λ e. refl, λ e. absurd (false≢true (sym h ∙ e)))

kept-ShippedAt :
    (now : ℕ) (no' : String) (at : Option ℕ)
    → is_empty (trim_space no') ≡ true
    → ShippedAt now no' at at
kept-ShippedAt now no' (some t) h = refl
kept-ShippedAt now no' none h = (λ e. absurd (false≢true (sym e ∙ h)), λ e. refl)

pub issued-HasNumber :
    (now : ℕ) (r : CreateOrderResult) (s : Shipment) → HasNumber now r s (issued now r s)
unfolding mark_shipment_shipped
issued-HasNumber now r s = elim (Bool-cases (is_empty (trim_space r.mail_no))) [
  | inl e ↦ rw e (kept-ShippedAt now r.mail_no s.shipped_at e, refl)
  | inr e ↦ rw e (shipped_once-ShippedAt now r.mail_no s.shipped_at e, refl)
]

-- What a request leaves, on each answer of the carrier, in the row that was stored and in the answer.
abbrev pub Settled : ℕ → Shipment → Answer CreateOrderResult → Shipment → Result Shipment → Type 0
Settled now s (answer r) x res = HasNumber now r s x
Settled now s (refusal text) x res =
    (x ≡ record s { status = failed; error_message = text }) × (res ≡ err (carrier text))

-- Whatever the carrier answers when it is asked for the number of a draft or failed shipment, of a
-- known account with credentials, is stored in the shipment's row. A number is stored with the status "created", without an error text and with the time of shipping,
-- of which an earlier one stays; this holds whatever the order centre answers afterwards. A refusal
-- is stored as failed with its text, which is the error too. Everything else is stored as it was read.
pub create_waybill-Settled :
    (o : Outside) (tenant now id : ℕ) (w : World) (s : Shipment) (c : CarrierAccount)
    → get_shipment o tenant id w ≡ ok s
    → may_create s.status ≡ true
    → get_carrier tenant s.carrier_account_id w ≡ ok c
    → has_credentials c ≡ true
    → (x : Shipment) × (stored tenant id (create_waybill o tenant now id w).1 ≡ some x)
      × Settled now s
          (o.on_create (waybill_request tenant w s ∷ w.calls))
          x
          (create_waybill o tenant now id w).0
create_waybill-Settled o tenant now id w s c got may account known =
    go (o.on_create (waybill_request tenant w s ∷ w.calls)) refl
  where
    go :
        (a : Answer CreateOrderResult)
        → o.on_create (waybill_request tenant w s ∷ w.calls) ≡ a
        → (x : Shipment) × (stored tenant id (create_waybill o tenant now id w).1 ≡ some x)
          × Settled now s
              (o.on_create (waybill_request tenant w s ∷ w.calls))
              x
              (create_waybill o tenant now id w).0
    go (answer r) e = (
      issued now r s,
      create_waybill-stores o tenant now id w s c r got may account known e,
      rw e (issued-HasNumber now r s),
    )
    go (refusal text) e =
        let (error, row) =
          create_waybill-fails o tenant now id w s c text got may account known e in
        (failed_with text s, row, rw e (refl, error))

pub loaded-status : (o : Outside) (s : Shipment) → (loaded o s).status ≡ s.status
unfolding loaded
loaded-status o s = elim (Bool-cases o.has_store) [ inl e ↦ rw e | inr e ↦ rw e ]

pub stored-get :
    (o : Outside) (tenant id : ℕ) (w : World) (s : Shipment)
    → stored tenant id w ≡ some s
    → get_shipment o tenant id w ≡ ok (loaded o s)
unfolding get_shipment found_shipment
stored-get o tenant id w s h = rw h

-- A shipment that the carrier has given a number gets no second one: after a call of
-- `create_waybill`, for a draft or failed shipment of a known account with credentials, that the
-- carrier answers, the next call, at any time and with any services outside, is refused and neither
-- calls nor changes anything.
pub create_waybill_once :
    (o o' : Outside) (tenant now later id : ℕ) (w : World) (s : Shipment) (c : CarrierAccount)
    (r : CreateOrderResult)
    → get_shipment o tenant id w ≡ ok s
    → may_create s.status ≡ true
    → get_carrier tenant s.carrier_account_id w ≡ ok c
    → has_credentials c ≡ true
    → o.on_create (waybill_request tenant w s ∷ w.calls) ≡ answer r
    → create_waybill o' tenant later id (create_waybill o tenant now id w).1
      ≡ (err invalid_status, (create_waybill o tenant now id w).1)
create_waybill_once o o' tenant now later id w s c r got may account known answered =
    let w' = (create_waybill o tenant now id w).1 in
    let kept = create_waybill-stores o tenant now id w s c r got may account known answered in
    let status = loaded-status o' (issued now r s) ∙ issued-status now r s in
    create_waybill_refused o' tenant later id w' (loaded o' (issued now r s))
      (stored-get o' tenant id w' (issued now r s) kept) (ap may_create status)
