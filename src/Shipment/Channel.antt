-- ===== src/Shipment/Channel.antt =====
-- Which channel a shipment belongs to: the carrier's own interface, or the printing helper.
use shipping_core.Base.{String, Bool, true, false, not, ◌&&◌, ◌||◌, ltb, if◌then◌else◌}
use shipping_core.Base.Text.{is_empty, trim_space, lower_is}
use shipping_core.Shipment.Model.{Shipment}

-- `via == model.ShipViaSF` for `via := strings.ToLower(strings.TrimSpace(ship_via))`
unfoldable pub via_is : String → Shipment → Bool
via_is channel s = lower_is (trim_space s.ship_via) channel

-- The carrier has issued a number, or its account is known.
abbrev pub has_sf_evidence : Shipment → Bool
has_sf_evidence s = ltb 0 s.carrier_account_id || not (is_empty (trim_space s.sf_order_id))

unfoldable pub is_kdzs_shipment : Shipment → Bool
is_kdzs_shipment s =
    if via_is "sf" s
    then false
    else if has_sf_evidence s
    then false
    else if via_is "kdzs" s
    then true
    else not (is_empty (trim_space s.mail_no)) && is_empty (trim_space s.sf_order_id)

unfoldable pub is_sf_managed_shipment : Shipment → Bool
is_sf_managed_shipment s =
    if is_kdzs_shipment s
    then false
    else if via_is "sf" s
    then true
    else if not (is_empty (trim_space s.sf_order_id))
    then true
    else ltb 0 s.carrier_account_id
