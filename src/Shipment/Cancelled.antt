-- ===== src/Shipment/Cancelled.antt =====
-- What `Cancel` leaves in the table, on each answer of the carrier.
use shipping_core.Base.{ℕ, ◌≡◌, refl, ap, ◌∙◌, ◌⊎◌, true, false, some, ◌∷◌, arith}
use shipping_core.Base.Text.{is_empty, trim_space}
use shipping_core.Base.Table.{first}
use shipping_core.Errors.{ok, err, bad_request}
use shipping_core.Shipment.Model.{draft, cancelled, Shipment, is_cancelled}
use shipping_core.Shipment.Channel.{is_kdzs_shipment}
use shipping_core.Shipment.World.{
  Outside, World, Call, cancel_order, answer, is_row, get_shipment, save_shipment,
}
use shipping_core.Shipment.Cancel.{cancelled_row, cancel_number, unship_order_core, cancel}
use shipping_core.Shipment.Rows.{stored, stored-save}

-- A shipment of the printing helper that is not cancelled yet is not cancelled here: the call is
-- refused, and nothing is called or changed.
pub cancel_refused :
    (o : Outside) (tenant id : ℕ) (w : World) (s : Shipment)
    → get_shipment o tenant id w ≡ ok s
    → is_cancelled s.status ≡ false
    → is_kdzs_shipment s ≡ true
    → cancel o tenant id w ≡ (err bad_request, w)
unfolding cancel
cancel_refused o tenant id w s got h k = rw (got, h, k)

pub unship-shipments :
    (o : Outside) (tenant : ℕ) (s : Shipment) (w : World)
    → (unship_order_core o tenant s w).1.shipments ≡ w.shipments
unfolding unship_order_core
unship-shipments o tenant s w = ground arith

-- Cancelling a cancelled shipment succeeds and leaves the table as it is.
pub cancel-again :
    (o : Outside) (tenant id : ℕ) (w : World) (s : Shipment)
    → get_shipment o tenant id w ≡ ok s
    → is_cancelled s.status ≡ true
    → ((cancel o tenant id w).0 ≡ ok s) × ((cancel o tenant id w).1.shipments ≡ w.shipments)
unfolding cancel
cancel-again o tenant id w s got h = (rw (got, h), rw (got, h) (unship-shipments o tenant s w))

-- The call of the carrier that cancels the shipment's waybill.
abbrev pub cancel_request : Shipment → Call
cancel_request s = cancel_order (cancel_number s) (trim_space s.mail_no)

-- The shipment with the columns of a cancelled one.
abbrev pub voided : Shipment → Shipment
voided s = record s { status = cancelled; error_message = "" }

-- The carrier has agreed, or need not be asked: the shipment is a draft, has no number of the
-- carrier's, or no account is known.
abbrev pub MayVoid : Outside → World → Shipment → Type 0
MayVoid o w s =
    (s.status ≡ draft)
    ⊎ ((is_empty (trim_space s.mail_no) ≡ true) × (is_empty (trim_space s.sf_order_id) ≡ true))
    ⊎ (s.carrier_account_id ≡ 0)
    ⊎ (o.on_cancel (cancel_request s ∷ w.calls) ≡ answer tt)

-- What a call may do to the tables: nothing, or the shipment was not cancelled and not the helper's,
-- could be cancelled, and is.
abbrev pub Consented : Outside → ℕ → ℕ → World → Shipment → World → Type 0
Consented o tenant id w s w' =
    (w'.shipments ≡ w.shipments)
    ⊎ ((is_cancelled s.status ≡ false)
        × (is_kdzs_shipment s ≡ false)
        × MayVoid o w s
        × (stored tenant id w' ≡ some (voided s)))

module _ (o : Outside) (tenant id : ℕ) (w : World) (s : Shipment)
    (got : get_shipment o tenant id w ≡ ok s) where
  -- The row after it has been saved as cancelled and the order centre has been told.
  pub told-stored :
      (w1 : World)
      → w1.shipments ≡ w.shipments
      → stored tenant id
          (unship_order_core o tenant
            (cancelled_row s)
            (save_shipment tenant (cancelled_row s) w1)).1
        ≡ some (voided s)
  told-stored w1 same =
      ap (first (is_row tenant id))
        (unship-shipments o tenant (cancelled_row s) (save_shipment tenant (cancelled_row s) w1))
      ∙ stored-save o tenant id w s got (voided s) w1 same refl refl
