-- ===== src/Shipment/PluginPrinted.antt =====
-- What asking for the data of the printing component changes (`FetchPrintPluginData`).
use shipping_core.Base.{
  ℕ, ◌≡◌, refl, ◌∙◌, String, true, not, ◌||◌, Option, none, some, Bool-cases, inl, inr,
}
use shipping_core.Base.Text.{is_empty}
use shipping_core.Errors.{Result, ok, err}
use shipping_core.Shipment.Model.{Shipment, CarrierAccount}
use shipping_core.Shipment.Channel.{is_kdzs_shipment, is_sf_managed_shipment}
use shipping_core.Shipment.Cargo.{resolve_print_template_code}
use shipping_core.Shipment.World.{
  World, Answer, answer, refusal, cloud_print, get_access_token, record_call, get_shipment,
}
use shipping_core.Shipment.Print.{mark_shipment_printed, with_account, resolve_print_carrier}
use shipping_core.Shipment.Rows.{stored, stored-save}
use shipping_core.Shipment.Printed.{
  SameParcel, KeepsParcel, with_account-same, same_trans, archive-shipments, unchanged,
}
use shipping_core.Shipment.Plugin.{
  PluginOutside, ParsedPrintResult, PluginData, chosen_template, request_number, plugin_data,
  plugin_printed, plugin_saved, parsed_answered, token_answered, plugin_on, fetch_print_plugin_data,
}

plugin_printed-same : (now : ℕ) (s : Shipment) → SameParcel s (plugin_printed now s)
unfolding mark_shipment_printed
plugin_printed-same now s = (refl, refl, refl, refl)

module _ {Json : Type 0} (read_json : String → Json) (o : PluginOutside) (tenant now millis : ℕ)
    (override_tpl : String) (id : ℕ) (w : World) (s : Shipment)
    (got : get_shipment o.base tenant id w ≡ ok s) where
  plugin_saved-keeps :
      (s1 : Shipment) (w' : World)
      → w'.shipments ≡ w.shipments
      → SameParcel s s1
      → KeepsParcel o.base tenant now id w s got
          (plugin_saved read_json o tenant now millis override_tpl s1 w')
  plugin_saved-keeps s1 w' same keeps =
      let s2 = plugin_printed now s1 in
      let all = same_trans s s1 s2 keeps (plugin_printed-same now s1) in
      (
        s2,
        stored-save o.base tenant id w s got s2 _ (archive-shipments o.base tenant now s2 w' ∙ same)
            all.2 all.3,
        all,
      )

  parsed_answered-keeps :
      (s1 : Shipment) (d : PluginData Json) (w' : World)
      → w'.shipments ≡ w.shipments
      → SameParcel s s1
      → (x : Answer (Option ParsedPrintResult))
      → KeepsParcel o.base tenant now id w s got
          (parsed_answered read_json o tenant now millis override_tpl s1 d w' x).1
  parsed_answered-keeps s1 d w' same keeps (refusal reason) = plugin_saved-keeps s1 w' same keeps
  parsed_answered-keeps s1 d w' same keeps (answer none) = plugin_saved-keeps s1 w' same keeps
  parsed_answered-keeps s1 d w' same keeps (answer (some p)) =
      plugin_saved-keeps (record s1 { label_data = p.obj_json }) w' same keeps

  token_answered-keeps :
      (c : CarrierAccount) (s1 : Shipment) (w' : World)
      → w'.shipments ≡ w.shipments
      → SameParcel s s1
      → (x : Answer String)
      → KeepsParcel o.base tenant now id w s got
          (token_answered read_json o tenant now millis override_tpl c s1 w' x).1
  token_answered-keeps c s1 w' same keeps (refusal reason) =
      unchanged o.base tenant now id w s got w' same
  token_answered-keeps c s1 w' same keeps (answer token) =
      let tpl = chosen_template override_tpl (resolve_print_template_code c) in
      let w2 = record_call (cloud_print true s1.mail_no tpl) w' in
      parsed_answered-keeps s1 (plugin_data c s1 (request_number millis s1) tpl token) w2 same keeps
        (o.on_parsed w2.calls)

  plugin_on-keeps :
      (x : Result CarrierAccount)
      → KeepsParcel o.base tenant now id w s got
          (plugin_on read_json o tenant now millis override_tpl s w x).1
  plugin_on-keeps (err e) = unchanged o.base tenant now id w s got w refl
  plugin_on-keeps (ok c) =
      let w' = record_call (get_access_token c.partner_id) w in
      elim (Bool-cases (is_empty (resolve_print_template_code c))) [
        | inl e ↦ rw e (unchanged o.base tenant now id w s got w refl)
        | inr e ↦ rw e (
            token_answered-keeps c (with_account o.base tenant now c s) w' refl
              (with_account-same o.base tenant now c s) (o.on_token w'.calls))
      ]

-- Whatever the carrier answers, and whether or not the call is refused, `fetch_print_plugin_data`
-- leaves the parcel number, the shipping time and the key of the stored shipment as they were.
pub fetch_print_plugin_data-SameParcel :
    {Json : Type 0} (read_json : String → Json) (o : PluginOutside) (tenant now millis : ℕ)
    (override_tpl : String) (id carrier_id : ℕ) (w : World) (s : Shipment)
    → get_shipment o.base tenant id w ≡ ok s
    → (r : Shipment) × (stored tenant id
          (fetch_print_plugin_data read_json o tenant now millis override_tpl id carrier_id w).1
        ≡ some r)
      × SameParcel s r
unfolding fetch_print_plugin_data
fetch_print_plugin_data-SameParcel read_json o tenant now millis override_tpl id carrier_id w s
      got =
    elim (Bool-cases (is_empty s.mail_no || is_kdzs_shipment s || not (is_sf_managed_shipment s))) [
      | inl e ↦ rw (got, e) (unchanged o.base tenant now id w s got w refl)
      | inr e ↦
          rw (got, e)
            (plugin_on-keeps read_json o tenant now millis override_tpl id w s got
              (resolve_print_carrier o.base tenant now s carrier_id w))
    ]
