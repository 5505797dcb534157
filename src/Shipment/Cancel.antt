-- ===== src/Shipment/Cancel.antt =====
-- `Cancel`: the carrier cancels its number, then the row is cancelled, then the order centre takes
-- the shipping back.
use shipping_core.Base.{
  ℕ, String, Bool, true, false, not, ◌&&◌, ◌||◌, [], ◌∷◌, ◌==◌, ltb, if◌then◌else◌,
}
use shipping_core.Base.Text.{is_empty, trim_space, first_non_empty_trim}
use shipping_core.Errors.{Result, ok, err, bad_request, carrier, order_core}
use shipping_core.Shipment.Model.{Status, draft, cancelled, is_cancelled, Shipment, CarrierAccount}
use shipping_core.Shipment.Channel.{is_kdzs_shipment}
use shipping_core.Shipment.OrderId.{sf_customer_order_base, shipment_order_id}
use shipping_core.Shipment.World.{
  Outside, World, cancel_order, unship, Answer, answer, refusal, record_call, get_shipment,
  save_shipment, get_carrier,
}

abbrev pub is_draft : Status → Bool
is_draft draft = true
is_draft _ = false

abbrev pub cancelled_row : Shipment → Shipment
cancelled_row s = record s { status = cancelled; error_message = "" }

abbrev pub has_sf_number : Shipment → Bool
has_sf_number s = not (is_empty (trim_space s.mail_no)) || not (is_empty (trim_space s.sf_order_id))

-- The number under which the carrier knows the waybill: the stored one, if there is one.
abbrev pub cancel_number : Shipment → String
cancel_number s =
    first_non_empty_trim (s.sf_order_id ∷ sf_customer_order_base s ∷ shipment_order_id s.id ∷ [])

module _ (o : Outside) (tenant : ℕ) where
  abbrev pub unship_answered : Answer (Unit {0}) → Result (Unit {0})
  unship_answered (answer _) = ok tt
  unship_answered (refusal text) = err (order_core text)

  -- `unshipOrderCore`
  unfoldable pub unship_order_core : Shipment → World → Result (Unit {0}) × World
  unship_order_core s w =
      let w' = record_call (unship s.order_core_order_id (trim_space s.mail_no)) w in
      if not o.has_order_core || s.order_core_order_id == 0 || is_empty (trim_space s.mail_no)
      then (ok tt, w)
      else (unship_answered (o.on_unship w'.calls), w')

  abbrev pub reread : Shipment → Result (Unit {0}) × World → Result Shipment × World
  reread s (err e, w) = (err e, w)
  reread s (ok _, w) = (get_shipment o tenant s.id w, w)

  -- The row is cancelled, and the order centre is told; its refusal is an error or not.
  abbrev pub void_row : Shipment → World → Result Shipment × World
  void_row s w =
      let w' = (unship_order_core (cancelled_row s) (save_shipment tenant (cancelled_row s) w)).1 in
      (get_shipment o tenant s.id w', w')

  abbrev pub void_and_report : Shipment → World → Result Shipment × World
  void_and_report s w =
      reread s (unship_order_core (cancelled_row s) (save_shipment tenant (cancelled_row s) w))

  abbrev pub after_cancel : Shipment → World → Answer (Unit {0}) → Result Shipment × World
  after_cancel s w (refusal text) = (err (carrier text), w)
  after_cancel s w (answer _) = void_and_report s w

  abbrev pub ask_cancel : Shipment → World → Result CarrierAccount → Result Shipment × World
  ask_cancel s w (err e) = (err bad_request, w)
  ask_cancel s w (ok c) =
      let w' = record_call (cancel_order (cancel_number s) (trim_space s.mail_no)) w in
      after_cancel s w' (o.on_cancel w'.calls)

  abbrev pub cancel_row : World → Result Shipment → Result Shipment × World
  cancel_row w (err e) = (err e, w)
  cancel_row w (ok s) =
      if is_cancelled s.status
      then (ok s, (unship_order_core s w).1)
      else if is_kdzs_shipment s
      then (err bad_request, w)
      else if is_draft s.status || not (has_sf_number s)
      then void_row s w
      else if ltb 0 s.carrier_account_id && has_sf_number s
      then ask_cancel s w (get_carrier tenant s.carrier_account_id w)
      else void_and_report s w

  unfoldable pub cancel : ℕ → World → Result Shipment × World
  cancel id w = cancel_row w (get_shipment o tenant id w)
