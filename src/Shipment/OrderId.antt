-- ===== src/Shipment/OrderId.antt =====
-- The customer's order number on a waybill: the order's number, and -2, -3, ... for later waybills.
use shipping_core.Base.{
  ℕ, ◌+◌, String, Bool, not, ◌&&◌, ◌||◌, List, ◌==◌, leb, ltb, if◌then◌else◌, filter, length,
}
use shipping_core.Base.Text.{is_empty, trim_space, upper_has_prefix, decimal, ◌+++◌, str_eq}
use shipping_core.Shipment.Model.{Shipment}

-- `shipmentOrderID`
unfoldable pub shipment_order_id : ℕ → String
shipment_order_id id = "SC" +++ decimal id

-- `sfCustomerOrderBase`
unfoldable pub sf_customer_order_base : Shipment → String
sf_customer_order_base s =
    let no' = trim_space s.order_no in
    let tid = trim_space s.source_tid in
    let ref = trim_space s.source_ref in
    if not (is_empty no')
    then no'
    else if upper_has_prefix tid "OC"
    then tid
    else if not (is_empty ref) && not (upper_has_prefix ref "SC-MANUAL")
    then ref
    else tid

-- `formatSFCustomerOrderID`
unfoldable pub format_sf_customer_order_id : String → ℕ → String
format_sf_customer_order_id base seq =
    if is_empty (trim_space base)
    then ""
    else if leb seq 1
    then trim_space base
    else trim_space base +++ "-" +++ decimal seq

-- The shipment has been given a number by the carrier, in any status.
abbrev pub has_number : Shipment → Bool
has_number s = not (is_empty s.mail_no) || not (is_empty s.sf_order_id)

abbrev pub same_order : Shipment → Shipment → Bool
same_order s r =
    if ltb 0 s.order_core_order_id
    then r.order_core_order_id == s.order_core_order_id
    else str_eq r.order_no (trim_space s.order_no)

-- The rows that `nextSFOrderSeq` counts.
abbrev pub counts_for : ℕ → Shipment → Shipment → Bool
counts_for tenant s r =
    r.tenant_id == tenant && not (ltb 0 s.id && r.id == s.id) && same_order s r && has_number r

unfoldable pub next_sf_order_seq : ℕ → List Shipment → Shipment → ℕ
next_sf_order_seq tenant rows s =
    if ltb 0 s.order_core_order_id || not (is_empty (trim_space s.order_no))
    then length (filter (counts_for tenant s) rows) + 1
    else 1

unfoldable pub resolve_sf_customer_order_id : ℕ → List Shipment → Shipment → String
resolve_sf_customer_order_id tenant rows s =
    if is_empty (sf_customer_order_base s)
    then shipment_order_id s.id
    else format_sf_customer_order_id (sf_customer_order_base s) (next_sf_order_seq tenant rows s)
