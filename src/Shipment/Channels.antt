-- ===== src/Shipment/Channels.antt =====
-- The two tests for a shipment's channel exclude each other, and the carrier's evidence decides.
use shipping_core.Base.{◌<◌, ◌≡◌, ◌↔◌, ◌⊎◌, true, false, arith}
use shipping_core.Base.Text.{is_empty, trim_space}
use shipping_core.Shipment.Model.{Shipment}
use shipping_core.Shipment.Channel.{via_is, is_kdzs_shipment, is_sf_managed_shipment}

-- The carrier has issued a number, its account is bound, or the channel says so.
abbrev pub BelongsToCarrier : Shipment → Type 0
BelongsToCarrier s =
    (via_is "sf" s ≡ true)
    ⊎ (0 < s.carrier_account_id)
    ⊎ (is_empty (trim_space s.sf_order_id) ≡ false)

-- A shipment is the carrier's exactly when its channel is the carrier's, an account is bound or the
-- carrier has issued an order number; the channel "kdzs" does not matter then.
pub is_sf_managed_shipment_iff :
    (s : Shipment) → (is_sf_managed_shipment s ≡ true) ↔ BelongsToCarrier s
unfolding is_sf_managed_shipment is_kdzs_shipment
is_sf_managed_shipment_iff s = ground arith

-- A shipment is the printing helper's exactly when it is not the carrier's, and either its channel
-- says so or it has a parcel number.
pub is_kdzs_shipment_iff :
    (s : Shipment)
    → (is_kdzs_shipment s ≡ true) ↔ (
        (¬ BelongsToCarrier s)
        × ((via_is "kdzs" s ≡ true) ⊎ (is_empty (trim_space s.mail_no) ≡ false)))
unfolding is_kdzs_shipment
is_kdzs_shipment_iff s = ground arith
