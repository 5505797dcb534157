-- ===== src/Shipment/LabelTests.antt =====
-- The theorems on labels, at a shipment whose label the carrier has.
use shipping_core.Base.{◌≡◌, refl, String, some, true, false, [], ◌∷◌}
use shipping_core.Errors.{ok, err, carrier}
use shipping_core.Shipment.World.{
  World, answer, refusal, get_shipment, found_shipment, loaded, get_carrier,
}
use shipping_core.Base.Text.{is_empty, lower_is, trim_space, str_contains}
use shipping_core.Shipment.Channel.{is_kdzs_shipment, via_is, is_sf_managed_shipment}
use shipping_core.Shipment.Cargo.{resolve_print_template_code}
use shipping_core.Shipment.Print.{resolve_print_carrier}
use shipping_core.Shipment.Label.{LabelOutside, archive_label_pdf, fetch_label_pdf}
use shipping_core.Shipment.Archived.{bares, fetch_label_pdf-refused}
use shipping_core.Shipment.Addressed.{Addressed, archive_label_pdf_only_address}
use shipping_core.Shipment.Model.{Shipment}
use shipping_core.Shipment.Rows.{stored}
use shipping_core.Shipment.Printed.{SameParcel}
use shipping_core.Shipment.Plugin.{PluginOutside, fetch_print_plugin_data}
use shipping_core.Shipment.PluginPrinted.{fetch_print_plugin_data-SameParcel}
use shipping_core.Shipment.Tests.{granting, world, sf_parcel}

abbrev with_labels : LabelOutside
with_labels = record {
  base = record granting {
    has_store = true;
    on_print = λ _. answer record { label_url = "u"; label_token = "t"; label_data = "" };
  };
  on_download = λ _. answer (1 ∷ []);
  on_upload = λ _. answer "stored";
}

abbrev without_file : LabelOutside
without_file = record with_labels { on_download = λ _. refusal "gone" }

abbrev NotEmpty : String → Type 0
NotEmpty url = is_empty url ≡ false

abbrev archived_world : World
archived_world = world (record sf_parcel { label_pdf_url = "old" })

archive_label_pdf_only_address_example :
    let w' =
      archive_label_pdf with_labels 1 90 5 2 "" true (λ i w. w) (λ i. false) "SF1" archived_world in
    (bares 1 5 w'.shipments ≡ bares 1 5 archived_world.shipments)
    × Addressed with_labels 1 90 NotEmpty (λ cs url e ne. ne) w'.shipments
archive_label_pdf_only_address_example =
    archive_label_pdf_only_address with_labels 1 90 NotEmpty (λ cs url e ne. ne) 5 2 "" true
      (λ i w. w) (λ i. false) (λ i w h. h) (λ i w. refl) "SF1" archived_world (refl, tt)

label_gone : (fetch_label_pdf without_file 1 90 5 2 (world sf_parcel)).0 ≡ err (carrier "gone")
unfolding fetch_label_pdf get_shipment found_shipment loaded is_kdzs_shipment via_is lower_is
    trim_space is_sf_managed_shipment resolve_print_carrier get_carrier resolve_print_template_code
    str_contains
label_gone = refl

fetch_label_pdf-refused_example :
    (fetch_label_pdf without_file 1 90 5 2 (world sf_parcel)).1.shipments
    ≡ (world sf_parcel).shipments
fetch_label_pdf-refused_example =
    fetch_label_pdf-refused without_file 1 90 5 2 (world sf_parcel) (carrier "gone") label_gone

abbrev with_layouts : PluginOutside
with_layouts = record {
  base = granting;
  on_token = λ _. answer "token";
  on_parsed = λ _. answer (
      some record {
        request_id = "R";
        template_code = "T";
        file_type = "json";
        files_json = "[]";
        obj_json = "{}";
      });
}

read_plugin : get_shipment with_layouts.base 1 5 (world sf_parcel) ≡ ok sf_parcel
unfolding get_shipment found_shipment loaded
read_plugin = refl

fetch_print_plugin_data-SameParcel_example :
    (r : Shipment) × (stored 1 5
        (fetch_print_plugin_data (λ text. text) with_layouts 1 90 90000 "" 5 2 (world sf_parcel)).1
      ≡ some r)
    × SameParcel sf_parcel r
fetch_print_plugin_data-SameParcel_example =
    fetch_print_plugin_data-SameParcel (λ text. text) with_layouts 1 90 90000 "" 5 2
      (world sf_parcel) sf_parcel read_plugin
