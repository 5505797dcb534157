-- ===== src/Shipment/Cargo.antt =====
-- What the waybill says is inside: the label of the cargo, its count, and the print templates.
use shipping_core.Base.{ℕ, ◌+◌, String, not, ◌||◌, List, [], ◌∷◌, leb, if◌then◌else◌}
use shipping_core.Base.Int.{ℤ, pos, negsuc, ◌+ℤ◌, wrap64, leb_ℤ, ltb_ℤ}
use shipping_core.Base.Text.{
  is_empty, trim_space, decimal, ◌+++◌, take_chars, char_count, str_contains,
}
use shipping_core.Shipment.Model.{Shipment, ShipmentItem, CarrierAccount}

-- `%d` of an `int`
unfoldable pub decimal_int : ℤ → String
decimal_int (pos n) = decimal n
decimal_int (negsuc n) = "-" +++ decimal (n + 1)

-- `truncateRunes`, at a positive bound
unfoldable pub truncate_runes : ℕ → String → String
truncate_runes bound s = if leb (char_count s) bound then s else take_chars bound s

-- `shipmentItemShipName`
unfoldable pub shipment_item_ship_name : ShipmentItem → String
shipment_item_ship_name it =
    if not (is_empty (trim_space it.sku_code))
    then trim_space it.sku_code
    else trim_space it.goods_name

abbrev pub at_least_one : ℤ → ℤ
at_least_one n = if leb_ℤ n (pos 0) then pos 1 else n

-- The loop of `shipmentCargoTotalQty`, on the running sum.
unfoldable pub sum_items : ℤ → List ShipmentItem → ℤ
sum_items sum [] = sum
sum_items sum (it ∷ its) =
    sum_items
      (if not (is_empty (shipment_item_ship_name it)) || not (is_empty (trim_space it.goods_name))
        then wrap64 (sum +ℤ at_least_one it.quantity)
        else sum)
      its

unfoldable pub shipment_cargo_total_qty : Shipment → ℤ
shipment_cargo_total_qty s =
    if ltb_ℤ (pos 0) s.cargo_count
    then s.cargo_count
    else if ltb_ℤ (pos 0) (sum_items (pos 0) s.items)
    then sum_items (pos 0) s.items
    else pos 1

-- `name*quantity` of each item that has a name.
unfoldable pub label_parts : List ShipmentItem → List String
label_parts [] = []
label_parts (it ∷ its) =
    let rest = label_parts its in
    if is_empty (shipment_item_ship_name it)
    then rest
    else (shipment_item_ship_name it +++ "*" +++ decimal_int (at_least_one it.quantity)) ∷ rest

-- `strings.Join(parts, ", ")`
unfoldable pub join_comma : List String → String
join_comma [] = ""
join_comma (p ∷ []) = p
join_comma (p ∷ q ∷ ps) = p +++ ", " +++ join_comma (q ∷ ps)

abbrev pub sf_cargo_name_max_runes : ℕ
sf_cargo_name_max_runes = 128

unfoldable pub join_shipment_cargo_label : Shipment → String
join_shipment_cargo_label s =
    let parts = join_comma (label_parts s.items) in
    let out = if is_empty parts then trim_space s.cargo_name else parts in
    if is_empty out
    then ""
    else truncate_runes sf_cargo_name_max_runes
        (out +++ " * " +++ decimal_int (shipment_cargo_total_qty s))

pub record CargoDetail : Type 0 where
  pub name : String
  pub count : ℤ

unfoldable pub build_sf_cargo_details : Shipment → List CargoDetail
build_sf_cargo_details s =
    if is_empty (join_shipment_cargo_label s)
    then []
    else record { name = join_shipment_cargo_label s; count = shipment_cargo_total_qty s } ∷ []

unfoldable pub shipment_sf_cargo_name : Shipment → String
shipment_sf_cargo_name s =
    if is_empty (join_shipment_cargo_label s) then "商品" else join_shipment_cargo_label s

-- `resolveSFPrintTemplates`; its second result is always the empty text.
unfoldable pub resolve_print_template_code : CarrierAccount → String
resolve_print_template_code c =
    let given = trim_space c.template_code in
    let std = if str_contains given "_custom_" then "" else given in
    if not (is_empty std)
    then std
    else if is_empty (trim_space c.partner_id)
    then ""
    else "fm_76130_standard_" +++ trim_space c.partner_id
