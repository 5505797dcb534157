-- ===== src/Shipment/Print.antt =====
-- `PrintWithCarrier` and `applyCloudPrint`: the carrier renders the waybill's label.
use shipping_core.Base.{ℕ, Bool, not, ◌&&◌, ◌||◌, some, ◌==◌, ltb, if◌then◌else◌}
use shipping_core.Base.Text.{is_empty, trim_space, lower_is, has_prefix, ◌+++◌}
use shipping_core.Errors.{Result, ok, err, bad_request, invalid_status, carrier}
use shipping_core.Shipment.Model.{
  Status, draft, created, printed, failed, is_cancelled, Shipment, CarrierAccount,
}
use shipping_core.Shipment.Channel.{is_kdzs_shipment, is_sf_managed_shipment}
use shipping_core.Shipment.Cargo.{resolve_print_template_code}
use shipping_core.Shipment.World.{
  Outside, World, cloud_print, archive_label, Answer, answer, refusal, PrintResult, record_call,
  get_shipment, save_shipment, get_carrier,
}

abbrev pub printed_status : Status → Status
printed_status created = printed
printed_status failed = printed
printed_status draft = printed
printed_status s = s

-- `markShipmentPrinted`
unfoldable pub mark_shipment_printed : ℕ → Shipment → Shipment
mark_shipment_printed now s = record s { printed_at = some now; status = printed_status s.status }

-- The plugin's channel is asked for.
abbrev pub by_plugin : CarrierAccount → Bool
by_plugin c =
    let channel = trim_space c.print_channel in
    lower_is channel "plugin" || lower_is channel "parsed" || lower_is channel "parseddata"

-- What the carrier's answer makes of the shipment.
unfoldable pub labelled : ℕ → CarrierAccount → PrintResult → Shipment → Shipment
labelled now c r s =
    if by_plugin c
    then mark_shipment_printed now (record s {
      label_url = "sf-plugin://" +++ s.mail_no;
      label_token = "";
      label_data = r.label_data;
    })
    else let s' = record s {
      label_url = r.label_url;
      label_token = r.label_token;
      label_data = r.label_data;
    } in
      if not (is_empty r.label_url) && not (has_prefix r.label_url "sf://")
      then mark_shipment_printed now s'
      else s'

module _ (o : Outside) (tenant now : ℕ) where
  -- The label is archived in the background where a store is configured.
  abbrev pub start_archive : Shipment → World → World
  start_archive s w =
      if o.has_store && not (s.id == 0) && not (is_empty (trim_space s.mail_no))
      then record_call (archive_label s.id) w
      else w

  abbrev pub after_print :
      CarrierAccount → Shipment → World → Answer PrintResult → Result Shipment × World
  after_print c s w (refusal text) = (err (carrier text), w)
  after_print c s w (answer r) =
      let s' = labelled now c r s in
      let w' = save_shipment tenant s' (start_archive s' w) in (get_shipment o tenant s.id w', w')

  -- A shipment without an account takes the account that prints it.
  abbrev pub with_account : CarrierAccount → Shipment → Shipment
  with_account c s = if s.carrier_account_id == 0 then record s { carrier_account_id = c.id } else s

  abbrev pub print_on : Shipment → World → Result CarrierAccount → Result Shipment × World
  print_on s w (err e) = (err e, w)
  print_on s w (ok c) =
      let tpl = resolve_print_template_code c in
      let w' = record_call (cloud_print (by_plugin c) s.mail_no tpl) w in
      if is_empty tpl
      then (err bad_request, w)
      else after_print c (with_account c s) w' (o.on_print w'.calls)

  abbrev pub usable : Result CarrierAccount → Result CarrierAccount
  usable (err e) = err bad_request
  usable (ok c) = if c.enabled then ok c else err bad_request

  unfoldable pub resolve_print_carrier : Shipment → ℕ → World → Result CarrierAccount
  resolve_print_carrier s override_id w =
      let id = if ltb 0 override_id then override_id else s.carrier_account_id in
      if id == 0 then err bad_request else usable (get_carrier tenant id w)

  abbrev pub with_printable : ℕ → World → Result Shipment → Result Shipment × World
  with_printable carrier_id w (err e) = (err e, w)
  with_printable carrier_id w (ok s) =
      if is_empty s.mail_no
      then (err bad_request, w)
      else if is_cancelled s.status
      then (err invalid_status, w)
      else if is_kdzs_shipment s || not (is_sf_managed_shipment s)
      then (err bad_request, w)
      else print_on s w (resolve_print_carrier s carrier_id w)

  unfoldable pub print_with_carrier : ℕ → ℕ → World → Result Shipment × World
  print_with_carrier id carrier_id w = with_printable carrier_id w (get_shipment o tenant id w)
