-- ===== src/Shipment/Label.antt =====
-- `FetchLabelPDF`, and the archiving of labels in the background (`scheduleArchiveLabelPDF` with
-- `archiveLabelPDFOnce`). What other requests do while a round waits is an argument, as is whether
-- the five minutes of the background work are over.
use shipping_core.Base.{
  ℕ, suc, String, Bool, true, false, not, ◌&&◌, ◌||◌, Option, none, some, List, [], ◌∷◌, ◌==◌,
  if◌then◌else◌,
}
use shipping_core.Base.Text.{is_empty, trim_space, ◌+++◌}
use shipping_core.Base.Table.{first, update_where}
use shipping_core.Errors.{Result, ok, err, bad_request, no_label, not_configured, carrier}
use shipping_core.Shipment.Model.{Shipment, CarrierAccount}
use shipping_core.Shipment.Channel.{is_kdzs_shipment, is_sf_managed_shipment}
use shipping_core.Shipment.Cargo.{resolve_print_template_code}
use shipping_core.Shipment.World.{
  Outside, World, Call, cloud_print, download_label, upload_label, Answer, answer, refusal,
  PrintResult, record_call, is_row, get_shipment, save_shipment, get_carrier,
}
use shipping_core.Shipment.Print.{mark_shipment_printed, with_account, resolve_print_carrier}

-- The services outside, with the download of a label and the store of files.
pub record LabelOutside : Type 0 where
  pub base : Outside
  pub on_download : List Call → Answer (List ℕ)
  pub on_upload : List Call → Answer String

abbrev pub is_nil {ℓ} : {A : Type ℓ} → List A → Bool
is_nil [] = true
is_nil (a ∷ l) = false

abbrev pub label_file : String → String
label_file mail_no = "sf-" +++ mail_no +++ ".pdf"

abbrev pub uploaded : Shipment → Answer String → Shipment
uploaded s (refusal reason) = s
uploaded s (answer url) = record s { label_pdf_url = url }

-- The label that the carrier has answered.
abbrev pub with_label : ℕ → PrintResult → Shipment → Shipment
with_label now r s =
    mark_shipment_printed now
      (record s { label_url = r.label_url; label_token = r.label_token; label_data = r.label_data })

module _ (o : LabelOutside) (tenant now : ℕ) where
  -- The label is kept in the store; where that fails, the shipment keeps its old address.
  abbrev pub keep_label : Shipment → List ℕ → World → Shipment × World
  keep_label s pdf w =
      let w' = record_call (upload_label pdf (label_file s.mail_no)) w in
      if o.base.has_store && not (is_nil pdf)
      then (uploaded s (o.on_upload w'.calls), w')
      else (s, w)

  abbrev pub store_label : List ℕ → Shipment × World → Result (List ℕ × String) × World
  store_label pdf (s, w) = (ok (pdf, label_file s.mail_no), save_shipment tenant s w)

  abbrev pub downloaded : Shipment → World → Answer (List ℕ) → Result (List ℕ × String) × World
  downloaded s w (refusal reason) = (err (carrier reason), w)
  downloaded s w (answer pdf) = store_label pdf (keep_label s pdf w)

  abbrev pub label_answered :
      Shipment → World → Answer PrintResult → Result (List ℕ × String) × World
  label_answered s w (refusal reason) = (err (carrier reason), w)
  label_answered s w (answer r) =
      let w' = record_call (download_label r.label_url r.label_token) w in
      if is_empty (trim_space r.label_url)
      then (err no_label, w)
      else downloaded (with_label now r s) w' (o.on_download w'.calls)

  abbrev pub fetch_on : Shipment → World → Result CarrierAccount → Result (List ℕ × String) × World
  fetch_on s w (err e) = (err e, w)
  fetch_on s w (ok c) =
      let tpl = resolve_print_template_code c in
      let w' = record_call (cloud_print false s.mail_no tpl) w in
      if is_empty tpl
      then (err bad_request, w)
      else label_answered (with_account o.base tenant now c s) w' (o.base.on_print w'.calls)

  abbrev pub fetch_found : ℕ → World → Result Shipment → Result (List ℕ × String) × World
  fetch_found carrier_id w (err e) = (err e, w)
  fetch_found carrier_id w (ok s) =
      if is_empty s.mail_no || is_kdzs_shipment s || not (is_sf_managed_shipment s)
      then (err bad_request, w)
      else fetch_on s w (resolve_print_carrier o.base tenant now s carrier_id w)

  unfoldable pub fetch_label_pdf : ℕ → ℕ → World → Result (List ℕ × String) × World
  fetch_label_pdf id carrier_id w = fetch_found carrier_id w (get_shipment o.base tenant id w)

  -- `archiveLabelPDFOnce`: the address of the label in the store.
  abbrev pub upload_answered : World → Answer String → Result String × World
  upload_answered w (refusal reason) = (err (carrier reason), w)
  upload_answered w (answer url) = (ok url, w)

  abbrev pub archive_downloaded : String → World → Answer (List ℕ) → Result String × World
  archive_downloaded mail_no w (refusal reason) = (err (carrier reason), w)
  archive_downloaded mail_no w (answer pdf) =
      let w' = record_call (upload_label pdf (label_file mail_no)) w in
      if is_nil pdf then (err no_label, w) else upload_answered w' (o.on_upload w'.calls)

  abbrev pub archive_printed : String → World → Answer PrintResult → Result String × World
  archive_printed mail_no w (refusal reason) = (err (carrier reason), w)
  archive_printed mail_no w (answer r) =
      let w' = record_call (download_label r.label_url r.label_token) w in
      if is_empty (trim_space r.label_url)
      then (err no_label, w)
      else archive_downloaded mail_no w' (o.on_download w'.calls)

  unfoldable pub archive_label_once :
      CarrierAccount → String → String → World → Result String × World
  archive_label_once c mail_no tpl w =
      let tpl' = if is_empty tpl then resolve_print_template_code c else tpl in
      let w' = record_call (cloud_print false mail_no tpl') w in
      if not o.base.has_store || is_empty (trim_space mail_no)
      then (err not_configured, w)
      else if is_empty (trim_space tpl')
      then (err bad_request, w)
      else archive_printed mail_no w' (o.base.on_print w'.calls)

  -- A round of the background: whether there is another one, and the tables.
  abbrev pub set_address : ℕ → String → World → World
  set_address id url w = record w {
    shipments = update_where (is_row tenant id) (λ s. record s { label_pdf_url = url }) w.shipments;
  }

  abbrev pub archived : ℕ → Result String × World → Bool × World
  archived id (err e, w) = (true, w)
  archived id (ok url, w) = if is_empty url then (true, w) else (false, set_address id url w)

  abbrev pub archive_with : ℕ → String → String → World → Result CarrierAccount → Bool × World
  archive_with id mail_no tpl w (err e) = (false, w)
  archive_with id mail_no tpl w (ok c) = archived id (archive_label_once c mail_no tpl w)

  abbrev pub archive_found : ℕ → ℕ → String → Bool → World → Option Shipment → Bool × World
  archive_found id carrier_id tpl force w none = (false, w)
  archive_found id carrier_id tpl force w (some s) =
      if not force && not (is_empty (trim_space s.label_pdf_url))
      then (false, w)
      else archive_with id s.mail_no tpl w (get_carrier tenant carrier_id w)

  unfoldable pub archive_round : ℕ → ℕ → String → Bool → World → Bool × World
  archive_round id carrier_id tpl force w =
      archive_found id carrier_id tpl force w (first (is_row tenant id) w.shipments)

  -- The seconds that are waited before each round.
  abbrev pub archive_delays : Bool → List ℕ
  archive_delays true = 0 ∷ 2 ∷ 5 ∷ 10 ∷ 20 ∷ 40 ∷ []
  archive_delays false = 5 ∷ 10 ∷ 20 ∷ 40 ∷ 60 ∷ []

  module _ (id carrier_id : ℕ) (tpl : String) (force : Bool) (meanwhile : ℕ → World → World)
      (is_over : ℕ → Bool) where
    abbrev pub next_round : (World → World) → Bool × World → World
    next_round again (true, w) = again w
    next_round again (false, w) = w

    unfoldable pub archive_rounds : ℕ → List ℕ → World → World
    archive_rounds i [] w = w
    archive_rounds i (delay ∷ delays) w =
        let w' = meanwhile i w in
        if is_over i
        then w'
        else next_round (archive_rounds (suc i) delays) (archive_round id carrier_id tpl force w')

    unfoldable pub archive_label_pdf : String → World → World
    archive_label_pdf mail_no w =
        let all = archive_rounds 0 (archive_delays force) w in
        if not o.base.has_store || id == 0 || is_empty (trim_space mail_no) then w else all
