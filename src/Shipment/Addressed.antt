-- ===== src/Shipment/Addressed.antt =====
-- Which addresses of labels the archiving in the background writes.
use shipping_core.Base.{
  ℕ, suc, ◌≡◌, refl, sym, subst, ◌∙◌, String, Bool, true, false, not, ◌&&◌, ◌||◌, Option, none,
  some, List, [], ◌∷◌, ◌==◌, if◌then◌else◌, Bool-cases, inl, inr, All,
}
use shipping_core.Base.Text.{is_empty, trim_space}
use shipping_core.Base.Table.{first, All-update_where}
use shipping_core.Errors.{Result, ok, err, ok-injective}
use shipping_core.Shipment.Model.{Shipment, CarrierAccount}
use shipping_core.Shipment.World.{
  World, Call, Answer, answer, refusal, PrintResult, is_row, get_carrier, record_call, cloud_print,
  download_label, upload_label,
}
use shipping_core.Shipment.Cargo.{resolve_print_template_code}
use shipping_core.Shipment.Label.{
  LabelOutside, is_nil, label_file, archive_label_once, archive_downloaded, archive_printed,
  upload_answered, archived, archive_with, archive_found, archive_round, archive_delays, next_round,
  archive_rounds, archive_label_pdf,
}
use shipping_core.Shipment.Archived.{bares, archive_label_once-shipments, archive_label_pdf-bares}

module _ (o : LabelOutside) (tenant now : ℕ) (P : String → Type 0)
    (stores : (cs : List Call) (url : String)
      → o.on_upload cs ≡ answer url
      → is_empty url ≡ false
      → P url) where
  -- Every shipment's address of its label is as stated.
  abbrev pub Addressed : List Shipment → Type 0
  Addressed l = All (λ (s : Shipment). P s.label_pdf_url) l

  -- An address that is answered is one that the store has given.
  abbrev Given : Result String → Type 0
  Given x = (url : String) → x ≡ ok url → is_empty url ≡ false → P url

  upload_answered-Given :
      (w : World) (cs : List Call) (x : Answer String)
      → o.on_upload cs ≡ x
      → Given (upload_answered o tenant now w x).0
  upload_answered-Given w cs (refusal reason) h = λ url e ne. cc
  upload_answered-Given w cs (answer u) h =
      λ url e ne. stores cs url (h ∙ (let same = ok-injective e in rw same)) ne

  archive_downloaded-Given :
      (no' : String) (w : World) (x : Answer (List ℕ))
      → Given (archive_downloaded o tenant now no' w x).0
  archive_downloaded-Given no' w (refusal reason) = λ url e ne. cc
  archive_downloaded-Given no' w (answer pdf) =
      let w' = record_call (upload_label pdf (label_file no')) w in
      elim (Bool-cases (is_nil pdf)) [
        | inl b ↦ rw b (λ url e ne. cc)
        | inr b ↦ rw b (upload_answered-Given w' w'.calls (o.on_upload w'.calls) refl)
      ]

  archive_printed-Given :
      (no' : String) (w : World) (x : Answer PrintResult)
      → Given (archive_printed o tenant now no' w x).0
  archive_printed-Given no' w (refusal reason) = λ url e ne. cc
  archive_printed-Given no' w (answer r) =
      let w' = record_call (download_label r.label_url r.label_token) w in
      elim (Bool-cases (is_empty (trim_space r.label_url))) [
        | inl b ↦ rw b (λ url e ne. cc)
        | inr b ↦ rw b (archive_downloaded-Given no' w' (o.on_download w'.calls))
      ]

  archive_label_once-Given :
      (c : CarrierAccount) (no' tpl : String) (w : World)
      → Given (archive_label_once o tenant now c no' tpl w).0
  unfolding archive_label_once
  archive_label_once-Given c no' tpl w =
      let tpl' = if is_empty tpl then resolve_print_template_code c else tpl in
      let w' = record_call (cloud_print false no' tpl') w in
      elim (Bool-cases (not o.base.has_store || is_empty (trim_space no'))) [
        | inl b ↦ rw b (λ url e ne. cc)
        | inr b ↦ elim (Bool-cases (is_empty (trim_space tpl'))) [
          | inl b' ↦ rw (b, b') (λ url e ne. cc)
          | inr b' ↦ rw (b, b') (archive_printed-Given no' w' (o.base.on_print w'.calls))
        ]
      ]

  archived-Addressed :
      (id : ℕ) (x : Result String) (w : World)
      → Given x
      → Addressed w.shipments
      → Addressed (archived o tenant now id (x, w)).1.shipments
  archived-Addressed id (err e) w given h = h
  archived-Addressed id (ok url) w given h = elim (Bool-cases (is_empty url)) [
    | inl e ↦ rw e h
    | inr e ↦ rw e (
        All-update_where (λ (s : Shipment). P s.label_pdf_url) (is_row tenant id)
          (λ s. record s { label_pdf_url = url }) w.shipments (λ r k. given url refl e) h)
  ]

  archive_with-Addressed :
      (id : ℕ) (no' tpl : String) (w : World) (x : Result CarrierAccount)
      → Addressed w.shipments
      → Addressed (archive_with o tenant now id no' tpl w x).1.shipments
  archive_with-Addressed id no' tpl w (err e) h = h
  archive_with-Addressed id no' tpl w (ok c) h =
      let (x, w') = archive_label_once o tenant now c no' tpl w in
      archived-Addressed id x w' (archive_label_once-Given c no' tpl w)
        (subst Addressed (sym (archive_label_once-shipments o tenant now c no' tpl w)) h)

  archive_found-Addressed :
      (id carrier_id : ℕ) (tpl : String) (force : Bool) (w : World) (x : Option Shipment)
      → Addressed w.shipments
      → Addressed (archive_found o tenant now id carrier_id tpl force w x).1.shipments
  archive_found-Addressed id carrier_id tpl force w none h = h
  archive_found-Addressed id carrier_id tpl force w (some s) h =
      elim (Bool-cases (not force && not (is_empty (trim_space s.label_pdf_url)))) [
        | inl e ↦ rw e h
        | inr e ↦
            rw e (archive_with-Addressed id s.mail_no tpl w (get_carrier tenant carrier_id w) h)
      ]

  module _ (id carrier_id : ℕ) (tpl : String) (force : Bool) (meanwhile : ℕ → World → World)
      (is_over : ℕ → Bool)
      (keeps : (i : ℕ) (w : World)
        → Addressed w.shipments
        → Addressed (meanwhile i w).shipments) where
    next_round-Addressed :
        (again : World → World)
        → ((w : World) → Addressed w.shipments → Addressed (again w).shipments)
        → (x : Bool × World) → Addressed x.1.shipments
        → Addressed
            (next_round o tenant now id carrier_id tpl force meanwhile is_over again x).shipments
    next_round-Addressed again same (true, w) h = same w h
    next_round-Addressed again same (false, w) h = h

    archive_rounds-Addressed :
        (i : ℕ) (delays : List ℕ) (w : World)
        → Addressed w.shipments
        → Addressed
            (archive_rounds o tenant now id carrier_id tpl force meanwhile is_over i delays
              w).shipments
    unfolding archive_rounds archive_round
    archive_rounds-Addressed i [] w h = h
    archive_rounds-Addressed i (d ∷ ds) w h =
        let w' = meanwhile i w in
        let again =
          archive_rounds o tenant now id carrier_id tpl force meanwhile is_over (suc i) ds in
        elim (Bool-cases (is_over i)) [
          | inl e ↦ rw e (keeps i w h)
          | inr e ↦ rw e (
              next_round-Addressed again (archive_rounds-Addressed (suc i) ds)
                (archive_round o tenant now id carrier_id tpl force w')
                (archive_found-Addressed id carrier_id tpl force w'
                  (first (is_row tenant id) w'.shipments) (keeps i w h)))
        ]

    archive_label_pdf-Addressed :
        (mail_no : String) (w : World)
        → Addressed w.shipments
        → Addressed
            (archive_label_pdf o tenant now id carrier_id tpl force meanwhile is_over mail_no
              w).shipments
    unfolding archive_label_pdf
    archive_label_pdf-Addressed mail_no w h =
        elim (Bool-cases (not o.base.has_store || id == 0 || is_empty (trim_space mail_no))) [
          | inl e ↦ rw e h
          | inr e ↦ rw e (archive_rounds-Addressed 0 (archive_delays o tenant now force) w h)
        ]

    -- The archiving of a label changes no shipment but the one that it is asked for, and of that one
    -- nothing but the address of its label, for which it writes only addresses that are not empty and
    -- that the store has answered: whatever holds of all of those, and of the addresses before, holds
    -- of the addresses afterwards. This is whatever the services answer and however many rounds it
    -- takes, where what other requests do while it waits changes no more than that either.
    pub archive_label_pdf_only_address :
        ((i : ℕ) (w : World)
          → bares tenant id (meanwhile i w).shipments ≡ bares tenant id w.shipments)
        → (mail_no : String) (w : World) → Addressed w.shipments
        → let w' =
            archive_label_pdf o tenant now id carrier_id tpl force meanwhile is_over mail_no w in
          (bares tenant id w'.shipments ≡ bares tenant id w.shipments) × Addressed w'.shipments
    archive_label_pdf_only_address quiet mail_no w h = (
      archive_label_pdf-bares o tenant now id carrier_id tpl force meanwhile is_over quiet mail_no
          w,
      archive_label_pdf-Addressed mail_no w h,
    )
