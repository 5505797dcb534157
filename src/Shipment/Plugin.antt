-- ===== src/Shipment/Plugin.antt =====
-- `FetchPrintPluginData`: what the carrier's printing component needs to print a label. The time in
-- milliseconds and the reading of a text as JSON are arguments.
use shipping_core.Base.{
  ℕ, String, Bool, true, not, ◌&&◌, ◌||◌, Option, none, some, List, [], ◌∷◌, if◌then◌else◌,
}
use shipping_core.Base.Text.{
  is_empty, trim_space, equal_fold, str_contains, decimal, first_non_empty_trim, ◌+++◌,
}
use shipping_core.Errors.{Result, ok, err, bad_request, carrier}
use shipping_core.Shipment.Model.{Shipment, CarrierAccount}
use shipping_core.Shipment.Channel.{is_kdzs_shipment, is_sf_managed_shipment}
use shipping_core.Shipment.Cargo.{resolve_print_template_code}
use shipping_core.Shipment.World.{
  Outside, World, Call, cloud_print, get_access_token, Answer, answer, refusal, record_call,
  get_shipment, save_shipment,
}
use shipping_core.Shipment.Print.{
  mark_shipment_printed, start_archive, with_account, resolve_print_carrier,
}

pub record ParsedPrintResult : Type 0 where
  pub request_id : String
  pub template_code : String
  pub file_type : String
  pub files_json : String
  pub obj_json : String

-- The services outside, with the carrier's access token and the layout of a label.
pub record PluginOutside : Type 0 where
  pub base : Outside
  pub on_token : List Call → Answer String
  pub on_parsed : List Call → Answer (Option ParsedPrintResult)

-- `sdkPrintData` with its one document.
pub record SdkPrintData : Type 0 where
  pub request_id : String
  pub access_token : String
  pub template_code : String
  pub master_waybill_no : String
  pub is_print_logo : Bool

pub record Layout (Json : Type 0) : Type 0 where
  pub file_type : String
  pub obj : Json
  pub files : Json

pub record PluginData (Json : Type 0) : Type 0 where
  pub partner_id : String
  pub env : String
  pub template_code : String
  pub mail_no : String
  pub request_id : String
  pub access_token : String
  pub sdk_print_data : SdkPrintData
  pub layout : Option (Layout Json)
  pub parsed_data_error : Option String

abbrev pub plugin_env : CarrierAccount → String
plugin_env c = if equal_fold c.env "prod" || equal_fold c.env "production" then "pro" else "sbox"

abbrev pub chosen_template : String → String → String
chosen_template override_tpl std =
    let ot = trim_space override_tpl in
    if not (is_empty ot) && not (str_contains ot "_custom_") then ot else std

abbrev pub request_number : ℕ → Shipment → String
request_number millis s = "SC" +++ decimal s.id +++ "-" +++ decimal millis

abbrev pub plugin_data :
    {Json : Type 0} → CarrierAccount → Shipment → String → String → String → PluginData Json
plugin_data c s number tpl token = record {
  partner_id = c.partner_id;
  env = plugin_env c;
  template_code = tpl;
  mail_no = s.mail_no;
  request_id = number;
  access_token = token;
  sdk_print_data = record {
    request_id = number;
    access_token = token;
    template_code = tpl;
    master_waybill_no = s.mail_no;
    is_print_logo = c.print_logo;
  };
  layout = none;
  parsed_data_error = none;
}

abbrev pub plugin_printed : ℕ → Shipment → Shipment
plugin_printed now s =
    mark_shipment_printed now (record s { label_url = "sf-plugin://" +++ s.mail_no })

module _ {Json : Type 0} (read_json : String → Json) (o : PluginOutside) (tenant now millis : ℕ)
    (override_tpl : String) where
  abbrev pub with_layout : ParsedPrintResult → PluginData Json → PluginData Json
  with_layout p d =
      let number = first_non_empty_trim (p.request_id ∷ d.request_id ∷ []) in
      let tpl = first_non_empty_trim (p.template_code ∷ d.template_code ∷ []) in
      record d {
        request_id = number;
        template_code = tpl;
        sdk_print_data = record d.sdk_print_data { request_id = number; template_code = tpl };
        layout = some record {
          file_type = p.file_type;
          obj = read_json p.obj_json;
          files = read_json p.files_json;
        };
      }

  abbrev pub plugin_saved : Shipment → World → World
  plugin_saved s w =
      let s' = plugin_printed now s in
      save_shipment tenant s' (start_archive o.base tenant now s' w)

  -- The layout is fetched ahead where the carrier gives it; printing goes on without it.
  abbrev pub parsed_answered :
      Shipment
      → PluginData Json
      → World
      → Answer (Option ParsedPrintResult)
      → Result (PluginData Json) × World
  parsed_answered s d w (refusal reason) =
      (ok (record d { parsed_data_error = some reason }), plugin_saved s w)
  parsed_answered s d w (answer none) = (ok d, plugin_saved s w)
  parsed_answered s d w (answer (some p)) =
      (ok (with_layout p d), plugin_saved (record s { label_data = p.obj_json }) w)

  abbrev pub token_answered :
      CarrierAccount → Shipment → World → Answer String → Result (PluginData Json) × World
  token_answered c s w (refusal reason) = (err (carrier reason), w)
  token_answered c s w (answer token) =
      let tpl = chosen_template override_tpl (resolve_print_template_code c) in
      let w' = record_call (cloud_print true s.mail_no tpl) w in
      parsed_answered s (plugin_data c s (request_number millis s) tpl token) w'
        (o.on_parsed w'.calls)

  abbrev pub plugin_on : Shipment → World → Result CarrierAccount → Result (PluginData Json) × World
  plugin_on s w (err e) = (err e, w)
  plugin_on s w (ok c) =
      let w' = record_call (get_access_token c.partner_id) w in
      if is_empty (resolve_print_template_code c)
      then (err bad_request, w)
      else token_answered c (with_account o.base tenant now c s) w' (o.on_token w'.calls)

  abbrev pub plugin_found : ℕ → World → Result Shipment → Result (PluginData Json) × World
  plugin_found carrier_id w (err e) = (err e, w)
  plugin_found carrier_id w (ok s) =
      if is_empty s.mail_no || is_kdzs_shipment s || not (is_sf_managed_shipment s)
      then (err bad_request, w)
      else plugin_on s w (resolve_print_carrier o.base tenant now s carrier_id w)

  unfoldable pub fetch_print_plugin_data : ℕ → ℕ → World → Result (PluginData Json) × World
  fetch_print_plugin_data id carrier_id w =
      plugin_found carrier_id w (get_shipment o.base tenant id w)
