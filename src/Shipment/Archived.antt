-- ===== src/Shipment/Archived.antt =====
-- What the archiving of labels may change (`FetchLabelPDF`, `scheduleArchiveLabelPDF`).
use shipping_core.Base.{
  ℕ, suc, ◌≡◌, refl, ap, ap₂, ◌∙◌, String, Bool, true, false, not, ◌&&◌, ◌||◌, Option, none, some,
  List, [], ◌∷◌, ◌==◌, if◌then◌else◌, Bool-cases, inl, inr,
}
use shipping_core.Base.Text.{is_empty, trim_space}
use shipping_core.Base.Table.{first, update_where}
use shipping_core.Errors.{Err, Result, ok, err}
use shipping_core.Shipment.Model.{Shipment, CarrierAccount}
use shipping_core.Shipment.World.{
  World, Answer, answer, refusal, PrintResult, is_row, get_carrier, get_shipment, record_call,
  cloud_print, download_label, upload_label,
}
use shipping_core.Shipment.Channel.{is_kdzs_shipment, is_sf_managed_shipment}
use shipping_core.Shipment.Print.{with_account, resolve_print_carrier}
use shipping_core.Shipment.Cargo.{resolve_print_template_code}
use shipping_core.Shipment.Label.{
  LabelOutside, is_nil, label_file, archive_label_once, archive_downloaded, archive_printed,
  upload_answered, archived, archive_with, archive_found, archive_round, downloaded, label_answered,
  fetch_on, fetch_found, fetch_label_pdf, with_label, archive_delays, next_round, archive_rounds,
  archive_label_pdf,
}

-- The shipments, without the address of its label for the one shipment of the key.
abbrev pub bare : ℕ → ℕ → Shipment → Shipment
bare tenant id s =
    if s.tenant_id == tenant && s.id == id then record s { label_pdf_url = "" } else s

unfoldable pub bares : ℕ → ℕ → List Shipment → List Shipment
bares tenant id [] = []
bares tenant id (s ∷ l) = bare tenant id s ∷ bares tenant id l

bare-address :
    (tenant id : ℕ) (url : String) (s : Shipment)
    → (s.tenant_id == tenant && s.id == id) ≡ true
    → bare tenant id (record s { label_pdf_url = url }) ≡ bare tenant id s
bare-address tenant id url s e = rw e refl

bares-update_where :
    (tenant id : ℕ) (url : String) (l : List Shipment)
    → bares tenant id (update_where (is_row tenant id) (λ s. record s { label_pdf_url = url }) l)
      ≡ bares tenant id l
unfolding bares
bares-update_where tenant id url [] = refl
bares-update_where tenant id url (s ∷ l) = elim (Bool-cases (is_row tenant id s)) [
  | inl e ↦ ap₂ ◌∷◌ (row e ∙ bare-address tenant id url s e) (bares-update_where tenant id url l)
  | inr e ↦ ap₂ ◌∷◌ (row e) (bares-update_where tenant id url l)
]
  where
    row :
        {b : Bool}
        → is_row tenant id s ≡ b
        → bare tenant id (if is_row tenant id s then record s { label_pdf_url = url } else s)
          ≡ bare tenant id (if b then record s { label_pdf_url = url } else s)
    row e = ap (λ b. bare tenant id (if b then record s { label_pdf_url = url } else s)) e

module _ (o : LabelOutside) (tenant now : ℕ) where
  upload_answered-shipments :
      (w : World) (x : Answer String) → (upload_answered o tenant now w x).1.shipments ≡ w.shipments
  upload_answered-shipments w (refusal reason) = refl
  upload_answered-shipments w (answer url) = refl

  archive_downloaded-shipments :
      (no' : String) (w : World) (x : Answer (List ℕ))
      → (archive_downloaded o tenant now no' w x).1.shipments ≡ w.shipments
  archive_downloaded-shipments no' w (refusal reason) = refl
  archive_downloaded-shipments no' w (answer pdf) =
      let w' = record_call (upload_label pdf (label_file no')) w in
      elim (Bool-cases (is_nil pdf)) [
        | inl e ↦ rw e refl
        | inr e ↦ rw e (upload_answered-shipments w' (o.on_upload w'.calls))
      ]

  archive_printed-shipments :
      (no' : String) (w : World) (x : Answer PrintResult)
      → (archive_printed o tenant now no' w x).1.shipments ≡ w.shipments
  archive_printed-shipments no' w (refusal reason) = refl
  archive_printed-shipments no' w (answer r) =
      let w' = record_call (download_label r.label_url r.label_token) w in
      elim (Bool-cases (is_empty (trim_space r.label_url))) [
        | inl e ↦ rw e refl
        | inr e ↦ rw e (archive_downloaded-shipments no' w' (o.on_download w'.calls))
      ]

  pub archive_label_once-shipments :
      (c : CarrierAccount) (no' tpl : String) (w : World)
      → (archive_label_once o tenant now c no' tpl w).1.shipments ≡ w.shipments
  unfolding archive_label_once
  archive_label_once-shipments c no' tpl w =
      let tpl' = if is_empty tpl then resolve_print_template_code c else tpl in
      let w' = record_call (cloud_print false no' tpl') w in
      elim (Bool-cases (not o.base.has_store || is_empty (trim_space no'))) [
        | inl e ↦ rw e refl
        | inr e ↦ elim (Bool-cases (is_empty (trim_space tpl'))) [
          | inl e' ↦ rw (e, e') refl
          | inr e' ↦ rw (e, e') (archive_printed-shipments no' w' (o.base.on_print w'.calls))
        ]
      ]

  archived-bares :
      (id : ℕ) (x : Result String) (w : World)
      → bares tenant id (archived o tenant now id (x, w)).1.shipments ≡ bares tenant id w.shipments
  archived-bares id (err e) w = refl
  archived-bares id (ok url) w = elim (Bool-cases (is_empty url)) [
    | inl e ↦ rw e refl
    | inr e ↦ rw e (bares-update_where tenant id url w.shipments)
  ]

  archive_with-bares :
      (id : ℕ) (no' tpl : String) (w : World) (x : Result CarrierAccount)
      → bares tenant id (archive_with o tenant now id no' tpl w x).1.shipments
        ≡ bares tenant id w.shipments
  archive_with-bares id no' tpl w (err e) = refl
  archive_with-bares id no' tpl w (ok c) =
      let (x, w') = archive_label_once o tenant now c no' tpl w in
      archived-bares id x w' ∙ ap (bares tenant id) (archive_label_once-shipments c no' tpl w)

  archive_found-bares :
      (id carrier_id : ℕ) (tpl : String) (force : Bool) (w : World) (x : Option Shipment)
      → bares tenant id (archive_found o tenant now id carrier_id tpl force w x).1.shipments
        ≡ bares tenant id w.shipments
  archive_found-bares id carrier_id tpl force w none = refl
  archive_found-bares id carrier_id tpl force w (some s) =
      elim (Bool-cases (not force && not (is_empty (trim_space s.label_pdf_url)))) [
        | inl e ↦ rw e refl
        | inr e ↦ rw e (archive_with-bares id s.mail_no tpl w (get_carrier tenant carrier_id w))
      ]

  archive_round-bares :
      (id carrier_id : ℕ) (tpl : String) (force : Bool) (w : World)
      → bares tenant id (archive_round o tenant now id carrier_id tpl force w).1.shipments
        ≡ bares tenant id w.shipments
  unfolding archive_round
  archive_round-bares id carrier_id tpl force w =
      archive_found-bares id carrier_id tpl force w (first (is_row tenant id) w.shipments)

  module _ (id carrier_id : ℕ) (tpl : String) (force : Bool) (meanwhile : ℕ → World → World)
      (is_over : ℕ → Bool)
      (quiet : (i : ℕ) (w : World)
        → bares tenant id (meanwhile i w).shipments ≡ bares tenant id w.shipments) where
    next_round-bares :
        (again : World → World)
        → ((w : World) → bares tenant id (again w).shipments ≡ bares tenant id w.shipments)
        → (x : Bool) (w : World)
        → bares tenant id
            (next_round o tenant now id carrier_id tpl force meanwhile is_over again
              (x, w)).shipments
          ≡ bares tenant id w.shipments
    next_round-bares again same true w = same w
    next_round-bares again same false w = refl

    archive_rounds-bares :
        (i : ℕ) (delays : List ℕ) (w : World)
        → bares tenant id
            (archive_rounds o tenant now id carrier_id tpl force meanwhile is_over i delays
              w).shipments
          ≡ bares tenant id w.shipments
    unfolding archive_rounds
    archive_rounds-bares i [] w = refl
    archive_rounds-bares i (d ∷ ds) w =
        let w' = meanwhile i w in
        let again =
          archive_rounds o tenant now id carrier_id tpl force meanwhile is_over (suc i) ds in
        let (x, w2) = archive_round o tenant now id carrier_id tpl force w' in
        elim (Bool-cases (is_over i)) [
          | inl e ↦ rw e (quiet i w)
          | inr e ↦ rw e (
              next_round-bares again (archive_rounds-bares (suc i) ds) x w2
              ∙ archive_round-bares id carrier_id tpl force w'
              ∙ quiet i w)
        ]

    -- The archiving of a label changes no shipment but the one that it is asked for, and of that one
    -- nothing but the address of its label, whatever the services answer and however many rounds it
    -- takes, where what other requests do while it waits changes no more than that either.
    pub archive_label_pdf-bares :
        (mail_no : String) (w : World)
        → bares tenant id
            (archive_label_pdf o tenant now id carrier_id tpl force meanwhile is_over mail_no
              w).shipments
          ≡ bares tenant id w.shipments
    unfolding archive_label_pdf
    archive_label_pdf-bares mail_no w =
        elim (Bool-cases (not o.base.has_store || id == 0 || is_empty (trim_space mail_no))) [
          | inl e ↦ rw e refl
          | inr e ↦ rw e (archive_rounds-bares 0 (archive_delays o tenant now force) w)
        ]

-- Fetching a label: a refusal comes before the row is saved.
module _ (o : LabelOutside) (tenant now : ℕ) where
  abbrev Harmless : World → Result (List ℕ × String) × World → Type 0
  Harmless w (x, w') = (e : Err) → x ≡ err e → w'.shipments ≡ w.shipments

  downloaded-Harmless :
      (s : Shipment) (w : World) (x : Answer (List ℕ)) → Harmless w (downloaded o tenant now s w x)
  downloaded-Harmless s w (refusal reason) = λ e h. refl
  downloaded-Harmless s w (answer pdf) = λ e h. cc

  label_answered-Harmless :
      (s : Shipment) (w : World) (x : Answer PrintResult)
      → Harmless w (label_answered o tenant now s w x)
  label_answered-Harmless s w (refusal reason) = λ e h. refl
  label_answered-Harmless s w (answer r) =
      let w' = record_call (download_label r.label_url r.label_token) w in
      elim (Bool-cases (is_empty (trim_space r.label_url))) [
        | inl d ↦ rw d (λ e h. refl)
        | inr d ↦ rw d (downloaded-Harmless (with_label now r s) w' (o.on_download w'.calls))
      ]

  fetch_on-Harmless :
      (s : Shipment) (w : World) (x : Result CarrierAccount)
      → Harmless w (fetch_on o tenant now s w x)
  fetch_on-Harmless s w (err e') = λ e h. refl
  fetch_on-Harmless s w (ok c) =
      let w' = record_call (cloud_print false s.mail_no (resolve_print_template_code c)) w in
      elim (Bool-cases (is_empty (resolve_print_template_code c))) [
        | inl d ↦ rw d (λ e h. refl)
        | inr d ↦ rw d (
            label_answered-Harmless (with_account o.base tenant now c s) w'
              (o.base.on_print w'.calls))
      ]

  fetch_found-Harmless :
      (carrier_id : ℕ) (w : World) (x : Result Shipment)
      → Harmless w (fetch_found o tenant now carrier_id w x)
  fetch_found-Harmless carrier_id w (err e') = λ e h. refl
  fetch_found-Harmless carrier_id w (ok s) =
      elim (Bool-cases
        (is_empty s.mail_no || is_kdzs_shipment s || not (is_sf_managed_shipment s))) [
          | inl d ↦ rw d (λ e h. refl)
          | inr d ↦
              rw d (fetch_on-Harmless s w (resolve_print_carrier o.base tenant now s carrier_id w))
        ]

  -- A label that cannot be fetched, be it that the shipment has none, that the account or its
  -- template is missing, or that the carrier refuses the label or its file, changes no shipment.
  pub fetch_label_pdf-refused :
      (id carrier_id : ℕ) (w : World) (e : Err)
      → (fetch_label_pdf o tenant now id carrier_id w).0 ≡ err e
      → (fetch_label_pdf o tenant now id carrier_id w).1.shipments ≡ w.shipments
  unfolding fetch_label_pdf
  fetch_label_pdf-refused id carrier_id w =
      fetch_found-Harmless carrier_id w (get_shipment o.base tenant id w)
