-- ===== src/Shipment/Printed.antt =====
-- What printing a label changes, and which shipments cannot be printed.
use shipping_core.Base.{
  ℕ, ◌≡◌, refl, sym, ap, ◌∙◌, true, not, ◌&&◌, ◌||◌, ◌⊎◌, some, ◌==◌, Bool-cases, arith, inl, inr,
}
use shipping_core.Base.Text.{is_empty, has_prefix}
use shipping_core.Base.Table.{first}
use shipping_core.Errors.{Result, ok, err, bad_request, invalid_status}
use shipping_core.Shipment.Model.{Shipment, CarrierAccount, is_cancelled}
use shipping_core.Shipment.Channel.{is_kdzs_shipment, is_sf_managed_shipment}
use shipping_core.Shipment.Cargo.{resolve_print_template_code}
use shipping_core.Shipment.World.{
  Outside, World, cloud_print, Answer, answer, refusal, PrintResult, record_call, loaded, is_row,
  get_shipment,
}
use shipping_core.Shipment.Print.{
  mark_shipment_printed, by_plugin, labelled, start_archive, after_print, with_account, print_on,
  resolve_print_carrier, print_with_carrier,
}
use shipping_core.Shipment.Rows.{stored, stored-save, got_row}

-- A shipment that has no parcel number, is cancelled or belongs to the printing helper is never
-- sent to the carrier's printer: the call is refused, and nothing is called or changed.
pub print_with_carrier_refused :
    (o : Outside) (tenant now id carrier_id : ℕ) (w : World) (s : Shipment)
    → get_shipment o tenant id w ≡ ok s
    → (is_empty s.mail_no || is_cancelled s.status || is_kdzs_shipment s) ≡ true
    → ((print_with_carrier o tenant now id carrier_id w).1 ≡ w)
      × (((print_with_carrier o tenant now id carrier_id w).0 ≡ err bad_request)
          ⊎ ((print_with_carrier o tenant now id carrier_id w).0 ≡ err invalid_status))
unfolding print_with_carrier
print_with_carrier_refused o tenant now id carrier_id w s got h =
    elim (Bool-cases (is_empty s.mail_no)) [
      | inl e ↦ rw (got, e) (refl, inl refl)
      | inr e ↦ elim (Bool-cases (is_cancelled s.status)) [
        | inl e' ↦ rw (got, e, e') (refl, inr refl)
        | inr e' ↦
            let k : is_kdzs_shipment s ≡ true = rw (e, e') at h in
            rw (got, e, e', k) (refl, inl refl)
      ]
    ]

-- Printing leaves the number, the shipping time and the key as they are.
abbrev pub SameParcel : Shipment → Shipment → Type 0
SameParcel s s' =
    (s'.mail_no ≡ s.mail_no)
    × (s'.shipped_at ≡ s.shipped_at)
    × (s'.id ≡ s.id)
    × (s'.tenant_id ≡ s.tenant_id)

pub with_account-same :
    (o : Outside) (tenant now : ℕ) (c : CarrierAccount) (s : Shipment)
    → SameParcel s (with_account o tenant now c s)
with_account-same o tenant now c s = elim (Bool-cases (s.carrier_account_id == 0)) [
  | inl e ↦ rw e (refl, refl, refl, refl)
  | inr e ↦ rw e (refl, refl, refl, refl)
]

labelled-same :
    (now : ℕ) (c : CarrierAccount) (r : PrintResult) (s : Shipment)
    → SameParcel s (labelled now c r s)
unfolding labelled mark_shipment_printed
labelled-same now c r s = elim (Bool-cases (by_plugin c)) [
  | inl e ↦ rw e (refl, refl, refl, refl)
  | inr e ↦ elim (Bool-cases (not (is_empty r.label_url) && not (has_prefix r.label_url "sf://"))) [
    | inl e' ↦ rw (e, e') (refl, refl, refl, refl)
    | inr e' ↦ rw (e, e') (refl, refl, refl, refl)
  ]
]

loaded-same : (o : Outside) (r : Shipment) → SameParcel r (loaded o r)
unfolding loaded
loaded-same o r = elim (Bool-cases o.has_store) [
  | inl e ↦ rw e (refl, refl, refl, refl)
  | inr e ↦ rw e (refl, refl, refl, refl)
]

pub same_trans : (a b c : Shipment) → SameParcel a b → SameParcel b c → SameParcel a c
same_trans a b c (m, t, i, n) (m', t', i', n') = (m' ∙ m, t' ∙ t, i' ∙ i, n' ∙ n)

-- A field that did not change on the way to the second shipment is the same in the third.
field-back :
    {A : Type 0} (r : Shipment) (f : Shipment → A) {l s : Shipment} → f l ≡ f r → l ≡ s → f r ≡ f s
field-back r f h e = sym h ∙ ap f e

pub archive-shipments :
    (o : Outside) (tenant now : ℕ) (s : Shipment) (w : World)
    → (start_archive o tenant now s w).shipments ≡ w.shipments
archive-shipments o tenant now s w = ground arith

module _ (o : Outside) (tenant now id : ℕ) (w : World) (s : Shipment)
    (got : get_shipment o tenant id w ≡ ok s) where
  -- A row stands under the key that differs from the shipment in nothing that printing must keep.
  abbrev pub KeepsParcel : World → Type 0
  KeepsParcel w' = (r : Shipment) × (stored tenant id w' ≡ some r) × SameParcel s r

  pub unchanged : (w' : World) → w'.shipments ≡ w.shipments → KeepsParcel w'
  unchanged w' same =
      let (r, e, l) = got_row o tenant id w s got in
      let (m, t, i, n) = loaded-same o r in
      (
        r,
        ap (first (is_row tenant id)) same ∙ e,
        (
          field-back r (λ x. x.mail_no) m l,
          field-back r (λ x. x.shipped_at) t l,
          field-back r (λ x. x.id) i l,
          field-back r (λ x. x.tenant_id) n l,
        ),
      )

  printed-keeps :
      (c : CarrierAccount) (w' : World)
      → w'.shipments ≡ w.shipments
      → (x : Answer PrintResult)
      → KeepsParcel (after_print o tenant now c (with_account o tenant now c s) w' x).1
  printed-keeps c w' same (refusal text) = unchanged w' same
  printed-keeps c w' same (answer r) =
      let s' = labelled now c r (with_account o tenant now c s) in
      let keeps =
        same_trans s (with_account o tenant now c s) s' (with_account-same o tenant now c s)
          (labelled-same now c r (with_account o tenant now c s)) in
      (
        s',
        stored-save o tenant id w s got s' (start_archive o tenant now s' w')
            (archive-shipments o tenant now s' w' ∙ same) keeps.2 keeps.3,
        keeps,
      )

  print_on-keeps : (a : Result CarrierAccount) → KeepsParcel (print_on o tenant now s w a).1
  print_on-keeps (err e) = unchanged w refl
  print_on-keeps (ok c) = elim (Bool-cases (is_empty (resolve_print_template_code c))) [
    | inl e ↦ rw e (unchanged w refl)
    | inr e ↦
        let w' =
          record_call (cloud_print (by_plugin c) s.mail_no (resolve_print_template_code c)) w in
        rw e (printed-keeps c w' refl (o.on_print w'.calls))
  ]

-- Whatever the carrier answers, and whether or not the call is refused, `print_with_carrier` leaves
-- the parcel number, the shipping time and the key of the stored shipment as they were.
pub print_with_carrier-SameParcel :
    (o : Outside) (tenant now id carrier_id : ℕ) (w : World) (s : Shipment)
    → get_shipment o tenant id w ≡ ok s
    → (r : Shipment) × (stored tenant id (print_with_carrier o tenant now id carrier_id w).1
        ≡ some r)
      × SameParcel s r
unfolding print_with_carrier
print_with_carrier-SameParcel o tenant now id carrier_id w s got =
    let same = unchanged o tenant now id w s got w refl in
    elim (Bool-cases (is_empty s.mail_no)) [
      | inl e ↦ rw (got, e) same
      | inr e ↦ elim (Bool-cases (is_cancelled s.status)) [
        | inl e' ↦ rw (got, e, e') same
        | inr e' ↦ elim (Bool-cases (is_kdzs_shipment s || not (is_sf_managed_shipment s))) [
          | inl k ↦ rw (got, e, e', k) same
          | inr k ↦
              rw (got, e, e', k)
                (print_on-keeps o tenant now id w s got
                  (resolve_print_carrier o tenant now s carrier_id w))
        ]
      ]
    ]
