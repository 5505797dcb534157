-- ===== src/Shipment/Drafts.antt =====
-- Drafts that are made of orders: what a refusal leaves, and that the carrier gives them a number.
use shipping_core.Base.{
  ℕ, ◌≡◌, refl, sym, ap, subst, ◌∙◌, String, Bool, true, not, ◌&&◌, ◌||◌, ◌==◌, none, some, List,
  [], ◌∷◌, ◌++◌, Bool-cases, if_cases, arith, inl, inr,
}
use shipping_core.Base.Table.{first, first-holds}
use shipping_core.Errors.{Err, Result, ok, err, ok-injective}
use shipping_core.Plan.Rows.{PlanTable}
use shipping_core.Shipper.Profiles.{ShipperProfile, ShipperTable, get_profile}
use shipping_core.Shipment.Model.{Shipment, CarrierAccount, draft}
use shipping_core.Shipment.World.{
  Outside, World, is_row, loaded, found_shipment, get_shipment, get_carrier, answer,
  CreateOrderResult,
}
use shipping_core.Shipment.Waybill.{may_create, has_credentials, issued, create_waybill}
use shipping_core.Shipment.Rows.{stored, got_key, found_carrier-ok}
use shipping_core.Shipment.Issued.{
  waybill_request, HasNumber, issued-HasNumber, create_waybill-stores,
}
use shipping_core.Shipment.Confirm.{add_shipment}
use shipping_core.Shipment.Order.{
  CreateShipmentFromOrderDto, order_refused, drafted, insert_draft, with_shipper, with_account,
  create_from_order, OrderAnswered,
}

first-append :
    (p : Shipment → Bool) (rows : List Shipment) (s : Shipment)
    → p s ≡ true
    → first p rows ≡ none
    → first p (rows ++ s ∷ []) ≡ some s
first-append p [] s own free = rw own refl
first-append p (r ∷ rows) s own free = ground (arith, first-append p rows s own)

first-append_some :
    (p : Shipment → Bool) (rows : List Shipment) (s : Shipment)
    → p s ≡ true
    → (r : Shipment) × (first p (rows ++ s ∷ []) ≡ some r)
first-append_some p [] s own = (s, rw own refl)
first-append_some p (x ∷ rows) s own = elim (Bool-cases (p x)) [
  | inl e ↦ (x, rw e refl)
  | inr e ↦ let (r, h) = first-append_some p rows s own in (r, rw (e, h) refl)
]

own_row : (tenant id : ℕ) → (tenant == tenant && id == id) ≡ true
own_row tenant id = ground arith

-- A refusal leaves the shipments and the plan as they were.
abbrev Unchanged : World → PlanTable → OrderAnswered → Type 0
Unchanged w plans (r, w', plans') = (e : Err) → r ≡ err e → (w' ≡ w) × (plans' ≡ plans)

module _ (is_time : String → Bool) (o : Outside) (tenant : ℕ) (inp : CreateShipmentFromOrderDto)
    (w : World) (plans : PlanTable) where
  insert_draft-Unchanged :
      (c : CarrierAccount) (p : ShipperProfile)
      → Unchanged w plans (insert_draft is_time o tenant inp c p w plans)
  unfolding get_shipment found_shipment
  insert_draft-Unchanged c p e h =
      let s = drafted w.next_shipment tenant inp c p in
      let (r, found) =
        first-append_some (is_row tenant w.next_shipment) w.shipments s
          (own_row tenant w.next_shipment) in
      let no = rw found at h in cc

  with_shipper-Unchanged :
      (c : CarrierAccount) (x : Result ShipperProfile)
      → Unchanged w plans (with_shipper is_time o tenant inp c w plans x)
  with_shipper-Unchanged c (err d) = λ e h. (refl, refl)
  with_shipper-Unchanged c (ok p) =
      if_cases (Unchanged w plans) (order_refused is_time inp c p) _ _ (λ _ e h. (refl, refl))
        (λ _. insert_draft-Unchanged c p)

  with_account-Unchanged :
      (shippers : ShipperTable) (x : Result CarrierAccount)
      → Unchanged w plans (with_account is_time o tenant inp w shippers plans x)
  with_account-Unchanged shippers (err d) = λ e h. (refl, refl)
  with_account-Unchanged shippers (ok c) =
      if_cases (Unchanged w plans) (not c.enabled || not (has_credentials c)) _ _
        (λ _ e h. (refl, refl))
        (λ _. with_shipper-Unchanged c (get_profile tenant inp.shipper_profile_id shippers))

-- CreateFromOrder refuses without a trace: whenever its answer is an error, no shipment is created,
-- nothing outside is called, and the plan is as it was.
pub create_from_order_refused :
    (is_time : String → Bool) (o : Outside) (tenant : ℕ) (inp : CreateShipmentFromOrderDto)
    (w : World) (shippers : ShipperTable) (plans : PlanTable) (e : Err)
    → (create_from_order is_time o tenant inp w shippers plans).0 ≡ err e
    → ((create_from_order is_time o tenant inp w shippers plans).1 ≡ w)
      × ((create_from_order is_time o tenant inp w shippers plans).2 ≡ plans)
unfolding create_from_order
create_from_order_refused is_time o tenant inp w shippers plans =
    if_cases (Unchanged w plans) (inp.carrier_account_id == 0 || inp.shipper_profile_id == 0) _ _
      (λ _ e h. (refl, refl))
      (λ _.
        with_account-Unchanged is_time o tenant inp w plans shippers
          (get_carrier tenant inp.carrier_account_id w))

-- What an answer with a shipment comes from: an account with credentials, and the draft.
abbrev IsDrafted : Outside → ℕ → CreateShipmentFromOrderDto → World → Shipment → World → Type 0
IsDrafted o tenant inp w s w' =
    (c : CarrierAccount) × (p : ShipperProfile) × (get_carrier tenant inp.carrier_account_id w
      ≡ ok c)
    × (has_credentials c ≡ true)
    × (w' ≡ add_shipment (drafted w.next_shipment tenant inp c p) w)
    × (get_shipment o tenant w.next_shipment w' ≡ ok s)

abbrev Drafts : Outside → ℕ → CreateShipmentFromOrderDto → World → OrderAnswered → Type 0
Drafts o tenant inp w (r, w', plans') = (s : Shipment) → r ≡ ok s → IsDrafted o tenant inp w s w'

module _ (is_time : String → Bool) (o : Outside) (tenant : ℕ) (inp : CreateShipmentFromOrderDto)
    (w : World) (plans : PlanTable) where
  with_shipper-Drafts :
      (c : CarrierAccount)
      → get_carrier tenant inp.carrier_account_id w ≡ ok c
      → has_credentials c ≡ true
      → (x : Result ShipperProfile)
      → Drafts o tenant inp w (with_shipper is_time o tenant inp c w plans x)
  with_shipper-Drafts c account known (err d) = λ s h. cc
  with_shipper-Drafts c account known (ok p) =
      if_cases (Drafts o tenant inp w) (order_refused is_time inp c p) _ _ (λ _ s h. cc)
        (λ _ s h. (c, p, account, known, refl, h))

  with_account-Drafts :
      (shippers : ShipperTable) (x : Result CarrierAccount)
      → get_carrier tenant inp.carrier_account_id w ≡ x
      → Drafts o tenant inp w (with_account is_time o tenant inp w shippers plans x)
  with_account-Drafts shippers (err d) e = λ s h. cc
  with_account-Drafts shippers (ok c) e =
      if_cases (Drafts o tenant inp w) (not c.enabled || not (has_credentials c)) _ _ (λ _ s h. cc)
        (λ passed.
          with_shipper-Drafts c e (ground arith)
            (get_profile tenant inp.shipper_profile_id shippers))

  create_from_order-Drafts :
      (shippers : ShipperTable)
      → Drafts o tenant inp w (create_from_order is_time o tenant inp w shippers plans)
  unfolding create_from_order
  create_from_order-Drafts shippers =
      if_cases (Drafts o tenant inp w) (inp.carrier_account_id == 0 || inp.shipper_profile_id == 0)
        _ _ (λ _ s h. cc)
        (λ _. with_account-Drafts shippers (get_carrier tenant inp.carrier_account_id w) refl)

-- Loading rewrites an address only.
loaded-draft :
    (o : Outside) (r : Shipment)
    → ((loaded o r).status ≡ r.status) × ((loaded o r).carrier_account_id ≡ r.carrier_account_id)
unfolding loaded
loaded-draft o r = elim (Bool-cases o.has_store) [ inl e ↦ (rw e, rw e) | inr e ↦ (rw e, rw e) ]

get_carrier-id :
    (tenant id : ℕ) (w : World) (c : CarrierAccount) → get_carrier tenant id w ≡ ok c → c.id ≡ id
unfolding get_carrier
get_carrier-id tenant id w c h =
    let test = λ (x : CarrierAccount). x.tenant_id == tenant && x.id == id in
    let own : test c ≡ true =
      first-holds test w.carriers c (found_carrier-ok (first test w.carriers) c h) in
    ground arith

got_draft :
    (o : Outside) (tenant id : ℕ) (w : World) (d s : Shipment)
    → stored tenant id w ≡ some d
    → get_shipment o tenant id w ≡ ok s
    → loaded o d ≡ s
unfolding get_shipment found_shipment
got_draft o tenant id w d s h got =
    let same : ok (loaded o d) ≡ ok s = rw h at got in ok-injective same

carriers-kept :
    (tenant id : ℕ) (w w' : World) (c : CarrierAccount)
    → w'.carriers ≡ w.carriers
    → get_carrier tenant id w ≡ ok c
    → get_carrier tenant id w' ≡ ok c
unfolding get_carrier
carriers-kept tenant id w w' c same h = rw same h

IsDrafted-waybill :
    (o : Outside) (tenant : ℕ) (inp : CreateShipmentFromOrderDto) (w w' : World) (s : Shipment)
    → stored tenant w.next_shipment w ≡ none
    → IsDrafted o tenant inp w s w'
    → (c : CarrierAccount) × (get_shipment o tenant s.id w' ≡ ok s)
      × (may_create s.status ≡ true)
      × (get_carrier tenant s.carrier_account_id w' ≡ ok c)
      × (has_credentials c ≡ true)
IsDrafted-waybill o tenant inp w w' s free (c, p, account, known, made, got) =
    let d = drafted w.next_shipment tenant inp c p in
    let own_id : s.id ≡ w.next_shipment = (got_key o tenant w.next_shipment w' s got).1 in
    let there : stored tenant w.next_shipment w' ≡ some d =
      subst (λ x. stored tenant w.next_shipment x ≡ some d) (sym made)
        (first-append (is_row tenant w.next_shipment) w.shipments d (own_row tenant w.next_shipment)
          free) in
    let same = got_draft o tenant w.next_shipment w' d s there got in
    let status : s.status ≡ draft =
      sym (ap (λ (x : Shipment). x.status) same) ∙ (loaded-draft o d).0 in
    let account_id : s.carrier_account_id ≡ inp.carrier_account_id =
      sym (ap (λ (x : Shipment). x.carrier_account_id) same)
      ∙ (loaded-draft o d).1
      ∙ get_carrier-id tenant inp.carrier_account_id w c account in
    (
      c,
      subst (λ k. get_shipment o tenant k w' ≡ ok s) (sym own_id) got,
      ap may_create status,
      subst (λ k. get_carrier tenant k w' ≡ ok c) (sym account_id)
          (carriers-kept tenant inp.carrier_account_id w w' c (ap (λ (x : World). x.carriers) made)
            account),
      known,
    )

-- A draft that is made of an order gets its number: after CreateFromOrder has answered with a
-- shipment, under an id that no row of the tenant had, CreateWaybill of that shipment asks the
-- carrier, and the numbers of the carrier's answer are stored in its row with the status "created" and
-- the time of shipping, and everything else as the draft was read.
pub create_from_order-create_waybill :
    (is_time : String → Bool) (o : Outside) (tenant now : ℕ) (inp : CreateShipmentFromOrderDto)
    (w : World) (shippers : ShipperTable) (plans : PlanTable) (s : Shipment) (r : CreateOrderResult)
    → stored tenant w.next_shipment w ≡ none
    → (create_from_order is_time o tenant inp w shippers plans).0 ≡ ok s
    → o.on_create (
        waybill_request tenant (create_from_order is_time o tenant inp w shippers plans).1 s
        ∷ (create_from_order is_time o tenant inp w shippers plans).1.calls)
      ≡ answer r
    → (x : Shipment) × (stored tenant s.id
          (create_waybill o tenant now s.id
            (create_from_order is_time o tenant inp w shippers plans).1).1
        ≡ some x)
      × HasNumber now r s x
create_from_order-create_waybill is_time o tenant now inp w shippers plans s r free made answered =
    let w' = (create_from_order is_time o tenant inp w shippers plans).1 in
    let drafts = create_from_order-Drafts is_time o tenant inp w plans shippers s made in
    let (c, got, may, account, known) = IsDrafted-waybill o tenant inp w w' s free drafts in
    (
      issued now r s,
      create_waybill-stores o tenant now s.id w' s c r got may account known answered,
      issued-HasNumber now r s,
    )
