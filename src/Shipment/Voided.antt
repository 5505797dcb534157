-- ===== src/Shipment/Voided.antt =====
-- What an answer of `Cancel` says of the table.
use shipping_core.Base.{
  ℕ, ◌≡◌, refl, sym, ap, ◌∙◌, inl, inr, true, not, ◌&&◌, ◌||◌, some, ltb, arith, Bool-cases, subst,
}
use shipping_core.Base.Table.{first}
use shipping_core.Errors.{Result, ok, err, Result-cases, ok-injective}
use shipping_core.Shipment.Model.{Status, cancelled, Shipment, CarrierAccount, is_cancelled}
use shipping_core.Shipment.Channel.{is_kdzs_shipment}
use shipping_core.Shipment.World.{
  Outside, World, Answer, answer, refusal, record_call, is_row, loaded, get_shipment, save_shipment,
  get_carrier,
}
use shipping_core.Shipment.Cancel.{
  is_draft, cancelled_row, has_sf_number, unship_order_core, reread, void_and_report, ask_cancel,
  after_cancel, cancel_row, cancel,
}
use shipping_core.Shipment.Rows.{stored, got_row, got_key}
use shipping_core.Shipment.Issued.{stored-get, loaded-status}
use shipping_core.Shipment.Cancelled.{cancel_request, voided, unship-shipments, told-stored}

module _ (o : Outside) (tenant id : ℕ) (w : World) (s : Shipment)
    (got : get_shipment o tenant id w ≡ ok s) where
  -- An answer of success goes with a cancelled row and shows it.
  abbrev IsVoid : Result Shipment × World → Type 0
  IsVoid (x, w') =
      (s' : Shipment)
      → x ≡ ok s'
      → (s'.status ≡ cancelled)
        × ((r : Shipment) × (stored tenant id w' ≡ some r) × (r.status ≡ cancelled))

  read-IsVoid :
      (w' : World)
      → stored tenant id w' ≡ some (voided s)
      → IsVoid (get_shipment o tenant s.id w', w')
  read-IsVoid w' h s' e =
      let own = (got_key o tenant id w s got).1 in
      let read : get_shipment o tenant s.id w' ≡ ok (loaded o (voided s)) =
        subst (λ k. get_shipment o tenant k w' ≡ ok (loaded o (voided s))) (sym own)
          (stored-get o tenant id w' (voided s) h) in
      let same : loaded o (voided s) ≡ s' = ok-injective (sym read ∙ e) in
      (sym (ap (λ (x : Shipment). x.status) same) ∙ loaded-status o (voided s), (voided s, h, refl))

  reread-IsVoid :
      (p : Result (Unit {0}) × World)
      → stored tenant id p.1 ≡ some (voided s)
      → IsVoid (reread o tenant s p)
  reread-IsVoid (err e, w') h = λ s' k. cc
  reread-IsVoid (ok u, w') h = read-IsVoid w' h

  reported-IsVoid :
      (w1 : World) → w1.shipments ≡ w.shipments → IsVoid (void_and_report o tenant s w1)
  reported-IsVoid w1 same =
      reread-IsVoid
        (unship_order_core o tenant (cancelled_row s) (save_shipment tenant (cancelled_row s) w1))
        (told-stored o tenant id w s got w1 same)

  after_cancel-IsVoid :
      (w1 : World) (x : Answer (Unit {0}))
      → w1.shipments ≡ w.shipments
      → IsVoid (after_cancel o tenant s w1 x)
  after_cancel-IsVoid w1 (refusal text) same = λ s' k. cc
  after_cancel-IsVoid w1 (answer u) same = reported-IsVoid w1 same

  ask_cancel-IsVoid : (x : Result CarrierAccount) → IsVoid (ask_cancel o tenant s w x)
  ask_cancel-IsVoid (err e) = λ s' k. cc
  ask_cancel-IsVoid (ok c) =
      let w1 = record_call (cancel_request s) w in
      after_cancel-IsVoid w1 (o.on_cancel w1.calls) refl

  cancelled_of : (x : Status) → is_cancelled x ≡ true → x ≡ cancelled
  cancelled_of x h = ground arith

  again-IsVoid : is_cancelled s.status ≡ true → IsVoid (ok s, (unship_order_core o tenant s w).1)
  again-IsVoid a s' e =
      let (r, there, same) = got_row o tenant id w s got in
      let void = cancelled_of s.status a in
      (
        sym (ap (λ (x : Shipment). x.status) (ok-injective e)) ∙ void,
        (
          r,
          ap (first (is_row tenant id)) (unship-shipments o tenant s w) ∙ there,
          sym (loaded-status o r) ∙ ap (λ (x : Shipment). x.status) same ∙ void,
        ),
      )

  cancel_row-IsVoid : IsVoid (cancel_row o tenant w (ok s))
  cancel_row-IsVoid = elim (Bool-cases (is_cancelled s.status)) [
    | inl a ↦ rw a (again-IsVoid a)
    | inr a ↦ elim (Bool-cases (is_kdzs_shipment s)) [
      | inl b ↦ rw (a, b) (λ s' k. cc)
      | inr b ↦ elim (Bool-cases (is_draft s.status || not (has_sf_number s))) [
        | inl d ↦ rw (a, b, d) (read-IsVoid _ (told-stored o tenant id w s got w refl))
        | inr d ↦ elim (Bool-cases (ltb 0 s.carrier_account_id && has_sf_number s)) [
          | inl e ↦ rw (a, b, d, e) (ask_cancel-IsVoid (get_carrier tenant s.carrier_account_id w))
          | inr e ↦ rw (a, b, d, e) (reported-IsVoid w refl)
        ]
      ]
    ]
  ]

-- When `cancel` answers with a shipment, that shipment is cancelled and so is its row in the table,
-- on every way through the operation: also where the order centre's refusal is passed over, and
-- where the shipment had been cancelled before.
pub cancel-cancelled :
    (o : Outside) (tenant id : ℕ) (w : World) (s' : Shipment)
    → (cancel o tenant id w).0 ≡ ok s'
    → (s'.status ≡ cancelled)
      × ((r : Shipment) × (stored tenant id (cancel o tenant id w).1 ≡ some r)
          × (r.status ≡ cancelled))
unfolding cancel
cancel-cancelled o tenant id w s' h = elim (Result-cases (get_shipment o tenant id w)) [
  | inr (x, e) ↦ cc (rw e at h)
  | inl (s, got) ↦ rw got (cancel_row-IsVoid o tenant id w s got s' (rw got at h))
]
